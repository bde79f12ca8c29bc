-- ===== src/Io/IndexOutput/Strings.antt =====
-- What `writeString` does on a stream that keeps the promises of `IsSink`.
use mathlib.Core.Path.{subst}
use lucanthrope.Base.{ℕ, ◌+◌, ◌%◌, ◌^◌, ◌≡◌, refl, List, length, length-append, arith}
use lucanthrope.Exception.{ok}
use lucanthrope.Io.Encode.{varint32_buf}
use lucanthrope.Io.IndexOutput.{OutputImpl, write_varint32, write_string}
use lucanthrope.Io.IndexOutput.Sink.{IsSink, Wrote, Wrote-append}
use lucanthrope.Io.IndexOutput.Writes.{write_lem}
use lucanthrope.Io.RoundTrip.Strings.{string_bytes}

module _ {S : Type 0} {impl : OutputImpl S} (sink : IsSink impl) where
  open sink use {Ready}

  pub write_string_lem :
      (str : List ℕ) (s : S) (p : ℕ)
      → Ready s p p
      → (s' : S) × (write_string ⦃impl = impl⦄ str s ≡ ok tt s')
        × Ready s' (p + length (string_bytes str)) (p + length (string_bytes str))
        × Wrote sink s p (string_bytes str) s'
  unfolding write_string write_varint32
  write_string_lem str s p r =
      let size : List ℕ = varint32_buf (length str % 2 ^ 32) in
      let (s1, e1, r1, w1) = write_lem sink size s p r in
      let (s2, e2, r2, w2) = write_lem sink str s1 (p + length size) r1 in
      let end_ : p + length size + length str ≡ p + length (string_bytes str) =
        omega (arith, length-append size str) in
      (
        s2,
        rw e1 e2,
        subst (λ n. Ready s2 n n) end_ r2,
        Wrote-append sink s s1 s2 p (p + length size) size str refl w1 w2,
      )
