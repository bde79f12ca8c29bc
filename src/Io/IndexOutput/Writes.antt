-- ===== src/Io/IndexOutput/Writes.antt =====
-- What `writeByte` and `write` do on a stream that keeps the promises of `IsSink`.
use lucanthrope.Base.{
  ℕ, zero, suc, ◌+◌, ◌-◌, ◌≤◌, ◌<◌, ◌≡◌, inl, inr, true, false, List, [], ◌∷◌, length, take, drop,
  length-drop, length-take-le, take-append-drop, ltb, leb, dec_lt, Bool-cases, refl, sym, ◌∙◌,
  arith,
}
use mathlib.Core.Path.{subst}
use lucanthrope.Exception.{ok}
use lucanthrope.Io.IndexOutput.{
  OutputImpl, flush_non_empty, store_bytes, copy_to_buffer, write_rounds, write,
}
use lucanthrope.Io.IndexOutput.Sink.{IsSink, Wrote, Holds-kept, Wrote-append}

module _ {S : Type 0} {impl : OutputImpl S} (sink : IsSink impl) where
  open sink use {Ready, Byte}

  -- A step that leaves every byte as it is.
  abbrev pub Same : S → S → Type 0
  Same s t = (i x : ℕ) → Byte s i x → Byte t i x

  pub Same-Wrote :
      (s t u : S) (p : ℕ) (bs : List ℕ) → Same s t → Wrote sink t p bs u → Wrote sink s p bs u
  Same-Wrote s t u p bs same w = record {
    holds = w.holds;
    kept = λ i x out b. w.kept i x out (same i x b);
  }

  Wrote-Same :
      (s t u : S) (p : ℕ) (bs : List ℕ) → Wrote sink s p bs t → Same t u → Wrote sink s p bs u
  Wrote-Same s t u p bs w same = record {
    holds = Holds-kept sink t u p bs (λ i x lo hi. same i x) w.holds;
    kept = λ i x out b. same i x (w.kept i x out b);
  }

  store_bytes_lem :
      (bs : List ℕ) (s : S) (c p : ℕ)
      → Ready s c p
      → length bs ≤ impl.available s
      → (s' : S) × (store_bytes ⦃impl = impl⦄ bs s ≡ ok tt s')
        × Ready s' (c + length bs) p
        × (impl.available s' + length bs ≡ impl.available s)
        × (impl.has_buffer s' ≡ impl.has_buffer s)
        × Wrote sink s c bs s'
  unfolding store_bytes
  store_bytes_lem [] s c p r h = (
    s,
    refl,
    (let e : c + 0 ≡ c = omega arith in rw e r),
    omega arith,
    refl,
    record { holds = tt; kept = λ i x out b. b },
  )
  store_bytes_lem (b ∷ bs) s c p r h =
      let (s1, e1, r1, a1, h1, byte, kept) = sink.store s c p b r (omega arith) in
      let (s2, e2, r2, a2, h2, w) = store_bytes_lem bs s1 (c + 1) p r1 (omega arith) in
      (
        s2,
        rw e1 e2,
        (let e : c + suc (length bs) ≡ c + 1 + length bs = omega arith in rw e r2),
        omega arith,
        h2 ∙ h1,
        record {
          holds = (w.kept c b (inl (omega arith)) byte, w.holds);
          kept = λ i x out old. elim out [
            | inl before ↦ w.kept i x (inl (omega arith)) (kept i x (omega arith) old)
            | inr after ↦ w.kept i x (inr (omega arith)) (kept i x (omega arith) old)
          ];
        },
      )

  -- With room for the `n` bytes, they are stored and `pos` follows.
  copy_and_move :
      (n : ℕ) (bs : List ℕ) (s : S) (p : ℕ)
      → n ≡ length bs
      → Ready s p p
      → length bs ≤ impl.available s
      → (s' : S) × (copy_to_buffer ⦃impl = impl⦄ bs s ≡ ok tt s')
        × Ready (impl.move n s') (p + n) (p + n)
        × (impl.available (impl.move n s') + n ≡ impl.available s)
        × (impl.has_buffer (impl.move n s') ≡ impl.has_buffer s)
        × Wrote sink s p bs (impl.move n s')
  unfolding copy_to_buffer
  copy_and_move n bs s p e r h =
      let (s1, e1, r1, a1, h1, w) = store_bytes_lem bs s p p r h in
      let (r2, a2, h2) = sink.move_lem s1 (p + length bs) p n r1 in
      let fits : leb (length bs) (impl.available s) ≡ true = ground arith in
      (
        s1,
        rw (fits, e1),
        subst (λ c. Ready (impl.move n s1) (p + c) (p + n)) (sym e) r2,
        omega arith,
        h2 ∙ h1,
        Wrote-Same s s1 _ p bs w (λ i x. sink.move-Byte s1 n i x),
      )

  -- The flush of a full buffer.
  pub flush_full :
      (s : S) (p : ℕ)
      → Ready s p p
      → impl.has_buffer s ≡ true
      → impl.available s ≡ 0
      → (s' : S) × (flush_non_empty ⦃impl = impl⦄ s ≡ ok tt s')
        × Ready s' p p
        × (0 < impl.available s')
        × (impl.has_buffer s' ≡ true)
        × Same s s'
  unfolding flush_non_empty
  flush_full s p r h a =
      let (s1, e1, r1, a1, h1, same) = sink.advance s p r h a in
      let some_bytes : ltb 0 (impl.get_num_writable_bytes s) ≡ true =
        ground (arith, sink.full s p p r h a) in
      (impl.reset_cursor s1, rw (some_bytes, e1), r1, a1, h1, same)

  -- What `write` does at `p`.
  abbrev pub Writes : ℕ → List ℕ → S → S → Type 0
  Writes p bs s s' = Ready s' (p + length bs) (p + length bs) × Wrote sink s p bs s'

  write_fits :
      (rounds : ℕ) (bs : List ℕ) (s : S) (p : ℕ)
      → Ready s p p
      → length bs ≤ impl.available s
      → (s' : S) × (write_rounds ⦃impl = impl⦄ (suc rounds) bs s ≡ ok tt s') × Writes p bs s s'
  unfolding write_rounds
  write_fits rounds bs s p r h =
      let (s1, e1, r1, _, _, w) = copy_and_move (length bs) bs s p refl r h in
      let fits : ltb (impl.available s) (length bs) ≡ false = ground arith in
      (impl.move (length bs) s1, rw (fits, e1), (r1, w))

  -- A round that fills the buffer and flushes it.
  write_round :
      (rounds : ℕ) (bs : List ℕ) (s : S) (p : ℕ)
      → Ready s p p
      → impl.has_buffer s ≡ true
      → impl.available s < length bs
      → (s' : S) × (write_rounds ⦃impl = impl⦄ (suc rounds) bs s
          ≡ write_rounds ⦃impl = impl⦄ rounds (drop (impl.available s) bs) s')
        × Ready s' (p + impl.available s) (p + impl.available s)
        × (0 < impl.available s')
        × (impl.has_buffer s' ≡ true)
        × Wrote sink s p (take (impl.available s) bs) s'
  unfolding write_rounds
  write_round rounds bs s p r h more =
      let a : ℕ = impl.available s in
      let len : length (take a bs) ≡ a = length-take-le a bs (omega arith) in
      let (s1, e1, r1, a1, h1, w) = copy_and_move a (take a bs) s p (sym len) r (omega arith) in
      let (s2, e2, r2, a2, h2, same) =
        flush_full (impl.move a s1) (p + a) r1 (h1 ∙ h) (omega arith) in
      let test : ltb a (length bs) ≡ true = ground arith in
      (s2, rw (test, h, e1, e2), r2, a2, h2, Wrote-Same s _ s2 p (take a bs) w same)

  write_rounds_lem :
      (rounds : ℕ) (bs : List ℕ) (s : S) (p : ℕ)
      → Ready s p p
      → impl.has_buffer s ≡ true
      → length bs + (1 - impl.available s) < rounds
      → (s' : S) × (write_rounds ⦃impl = impl⦄ rounds bs s ≡ ok tt s') × Writes p bs s s'
  write_rounds_lem zero bs s p r h f = absurd (omega arith)
  write_rounds_lem (suc rounds) bs s p r h f = elim (dec_lt (impl.available s) (length bs)) [
    | no fits ↦ write_fits rounds bs s p r (omega arith)
    | yes more ↦
        let a : ℕ = impl.available s in
        let (s1, e1, r1, a1, h1, w1) = write_round rounds bs s p r h more in
        let len : length (take a bs) ≡ a = length-take-le a bs (omega arith) in
        let left : length (drop a bs) ≡ length bs - a = length-drop a bs in
        let (s2, e2, w2) = write_rounds_lem rounds (drop a bs) s1 (p + a) r1 h1 (omega arith) in
        let there : p + a + length (drop a bs) ≡ p + length bs = omega arith in
        (
          s2,
          e1 ∙ e2,
          (
            subst (λ c. Ready s2 c c) there w2.0,
            subst (λ t. Wrote sink s p t s2) (take-append-drop a bs)
                (Wrote-append sink s s1 s2 p (p + a) (take a bs) (drop a bs) (omega arith) w1 w2.1),
          ),
        )
  ]

  write_first :
      (rounds : ℕ) (bs : List ℕ) (s : S) (p : ℕ)
      → Ready s p p
      → impl.has_buffer s ≡ false
      → 0 < length bs
      → length bs < rounds
      → (s' : S) × (write_rounds ⦃impl = impl⦄ (suc rounds) bs s ≡ ok tt s') × Writes p bs s s'
  unfolding write_rounds
  write_first rounds bs s p r h some f =
      let (s1, e1, r1, a1, h1, same) = sink.init s p p r h in
      let (s2, e2, w) = write_rounds_lem rounds bs s1 p r1 h1 (omega arith) in
      let test : ltb (impl.available s) (length bs) ≡ true = ground (arith, sink.empty s p p r h) in
      (s2, rw (test, h, e1) e2, (w.0, Same-Wrote s s1 s2 p bs same w.1))

  -- `write` to a stream that is well formed, with cursor and `pos` at `p`, returns; it leaves
  -- the bytes at `p` and the cursor and `pos` behind them, and changes no other byte of the
  -- file.
  pub write_lem :
      (bs : List ℕ) (s : S) (p : ℕ)
      → Ready s p p
      → (s' : S) × (write ⦃impl = impl⦄ bs s ≡ ok tt s')
        × Ready s' (p + length bs) (p + length bs)
        × Wrote sink s p bs s'
  unfolding write
  write_lem bs s p r = elim (Bool-cases (impl.has_buffer s)) [
    | inl yes_buffer ↦
        let (s1, e1, w) = write_rounds_lem _ bs s p r yes_buffer (omega arith) in (s1, e1, w.0, w.1)
    | inr no_buffer ↦ elim (dec_lt 0 (length bs)) [
      | yes some ↦
          let (s1, e1, w) = write_first _ bs s p r no_buffer some (omega arith) in
          (s1, e1, w.0, w.1)
      | no nothing ↦ let (s1, e1, w) = write_fits _ bs s p r (omega arith) in (s1, e1, w.0, w.1)
    ]
  ]
