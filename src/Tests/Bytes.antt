-- ===== src/Tests/Bytes.antt =====
-- A stream over a list of bytes, with which the functions of IndexInput are run.
use lucanthrope.Base.{
  ℕ, ◌+◌, ◌<◌, ◌≡◌, refl, ap, Bool, true, false, List, [], ◌∷◌, ◌++◌, length, arith, append-nil,
  length-append,
}
use lucanthrope.Exception.{ok, aborts, Action}
use lucanthrope.Io.IndexInput.{InputImpl}
use lucanthrope.Io.IndexInput.Source.{IsSource}

-- The bytes in the buffer, and those that the next call of `fillImpl` brings.
abbrev pub ByteStream : Type 0
ByteStream = List ℕ × List ℕ

abbrev pub unread : List ℕ → ByteStream
unread bytes = ([], bytes)

pub next_byte : Action ByteStream ℕ
next_byte s = elim s.0 [ [] ↦ aborts | b ∷ bs ↦ ok b (bs, s.1) ]

pub fill_impl : Action ByteStream Bool
fill_impl s = elim s.1 [ [] ↦ ok false s | b ∷ bs ↦ ok true (b ∷ bs, []) ]

unfoldable pub byte_stream : InputImpl ByteStream
unfolding next_byte fill_impl
byte_stream = record {
  get_num_readable_bytes = λ s. length s.0;
  next_byte = next_byte;
  fill_impl = fill_impl;
  move = λ n s. s;
}

abbrev IsAhead : Bool → ByteStream → List ℕ → Type 0
IsAhead ends s xs = s.0 ++ s.1 ≡ xs

pub next_lem :
    (ends : Bool) (s : ByteStream) (x : ℕ) (xs : List ℕ)
    → IsAhead ends s (x ∷ xs)
    → 0 < length s.0
    → (s' : ByteStream) × (next_byte s ≡ ok x s')
      × IsAhead ends s' xs
      × (length s'.0 + 1 ≡ length s.0)
unfolding next_byte
next_lem ends ([], l) x xs a h = absurd (omega (arith, h))
next_lem ends (b ∷ bs, l) x xs a h = ((bs, l), ground (arith, a), ground (arith, a), omega arith)

pub fill_lem :
    (ends : Bool) (s : ByteStream) (x : ℕ) (xs : List ℕ)
    → IsAhead ends s (x ∷ xs)
    → length s.0 ≡ 0
    → (s' : ByteStream) × (fill_impl s ≡ ok true s') × IsAhead ends s' (x ∷ xs) × (0 < length s'.0)
unfolding fill_impl
fill_lem ends (b ∷ bs, l) x xs a h = absurd (omega (arith, h))
fill_lem ends ([], []) x xs a h = absurd (ground (arith, a))
fill_lem ends ([], b ∷ bs) x xs a h = ((b ∷ bs, []), refl, rw append-nil a, omega arith)

pub exhausted_lem : (s : ByteStream) → IsAhead true s [] → fill_impl s ≡ ok false s
unfolding fill_impl
exhausted_lem ([], []) a = refl
exhausted_lem ([], b ∷ bs) a = absurd (ground (arith, a))
exhausted_lem (b ∷ bs, l) a = absurd (ground (arith, a))

unfoldable pub byte_stream-IsSource : IsSource byte_stream
unfolding byte_stream
byte_stream-IsSource = record {
  Ahead = IsAhead;
  next = next_lem;
  fill = fill_lem;
  within = λ s xs a. omega (arith, length-append s.0 s.1, ap (λ (ys : List ℕ). length ys) a);
  exhausted = exhausted_lem;
  move-Ahead = λ ends s xs n a. a;
  move-readable = λ s n. refl;
}
