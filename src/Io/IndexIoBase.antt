-- ===== src/Io/IndexIoBase.antt =====
-- IndexIOBase of include/lucanthrope/IO/IndexIOBase.h: the buffer that IndexInput.h and
-- IndexOutput.h share, and how a client installs its own. A pointer is an address, 0 the null
-- pointer; differences of pointers are taken as `size_t`.
pub mod External
use lucanthrope.Base.{ℕ, ◌+◌, ◌-◌, ◌*◌, ◌%◌, ◌^◌, Bool, false, not, ltb, leb, ◌==◌, if◌then◌else◌}
use lucanthrope.Exception.{Outcome, Action, assert, modify, ◌>>=◌, ◌>>◌}

pub record IndexIoBase : Type 0 where
  pub buf_start : ℕ
  pub buf_cur : ℕ
  pub buf_end : ℕ
  pub pos : ℕ

-- `IndexIOBase() = default`
abbrev pub new_base : IndexIoBase
new_base = record { buf_start = 0; buf_cur = 0; buf_end = 0; pos = 0 }

abbrev pub pointer_add : ℕ → ℕ → ℕ
pointer_add p n = (p + n) % 2 ^ 64

abbrev pub pointer_difference : ℕ → ℕ → ℕ
pointer_difference p q = (p + 2 ^ 64 - q) % 2 ^ 64

-- `supportsExternalBuffer()`, unless a derived class says otherwise.
abbrev pub supports_external_buffer : Bool
supports_external_buffer = false

unfoldable pub has_buffer : IndexIoBase → Bool
has_buffer b = not (b.buf_start == 0)

pub get_buffer_size : IndexIoBase → ℕ
get_buffer_size b = pointer_difference b.buf_end b.buf_start

abbrev pub get_current_position : IndexIoBase → ℕ
get_current_position b = b.pos

-- `set(bufferStart, size)`
pub set : ℕ → ℕ → Action IndexIoBase (Unit {0})
set start size = do
  modify (λ b. record b { buf_start = start; buf_end = pointer_add start size })
  λ b. assert (leb b.buf_start b.buf_end) b

-- `IndexIOBase::setExternalBuffer`, with what `supportsExternalBuffer()` says.
pub set_external_buffer : Bool → ℕ → ℕ → Action IndexIoBase (Unit {0})
unfolding has_buffer
set_external_buffer supports start size = do
  assert supports
  λ b. assert (not (has_buffer b)) b
  modify (λ b. record b { buf_start = start; buf_end = pointer_add start size })
  λ b. assert (leb b.buf_start b.buf_end) b

-- `hintBufferSize` and `preferredBufferSize`, with what the platform is and its `BUFSIZ`.
abbrev pub hint_buffer_size : ℕ → IndexIoBase → IndexIoBase
hint_buffer_size hint b = b

abbrev pub preferred_buffer_size : Bool → ℕ → ℕ
preferred_buffer_size windows bufsiz = if windows then 16 * 1024 else bufsiz

-- IndexOutput.h: `setExternalBuffer`, `getNumWritableBytes`, `available`.
pub set_output_buffer : Bool → ℕ → ℕ → Action IndexIoBase (Unit {0})
unfolding set_external_buffer
set_output_buffer supports start size =
    set_external_buffer supports start size >> modify (λ b. record b { buf_cur = b.buf_start })

pub get_num_writable_bytes : IndexIoBase → ℕ
get_num_writable_bytes b = pointer_difference b.buf_cur b.buf_start

pub available : IndexIoBase → ℕ
available b = pointer_difference b.buf_end b.buf_cur

-- IndexInput.h has one pointer more.
pub record InputBase : Type 0 where
  pub base : IndexIoBase
  pub sentinel : ℕ

abbrev pub new_input_base : InputBase
new_input_base = record { base = new_base; sentinel = 0 }

-- A function of the base class called on the derived object.
abbrev on_base : Action IndexIoBase (Unit {0}) → Action InputBase (Unit {0})
on_base m i = elim (m i.base) [
  | Outcome.ok u b ↦ Outcome.ok u (record i { base = b })
  | Outcome.throws e b ↦ Outcome.throws e (record i { base = b })
  | Outcome.aborts ↦ Outcome.aborts
  | Outcome.undefined ↦ Outcome.undefined
  | Outcome.diverges ↦ Outcome.diverges
]

-- IndexInput.h: `setExternalBuffer`, `getNumReadableBytes`, `hasPendingData`.
pub set_input_buffer : Bool → ℕ → ℕ → Action InputBase (Unit {0})
unfolding set_external_buffer
set_input_buffer supports start size = do
  on_base (set_external_buffer supports start size)
  modify (λ i. record i { base = record (i.base) { buf_cur = i.base.buf_end } })

pub get_num_readable_bytes : InputBase → ℕ
get_num_readable_bytes i = pointer_difference i.sentinel i.base.buf_cur

pub has_pending_data : InputBase → Bool
unfolding get_num_readable_bytes
has_pending_data i = ltb 0 (get_num_readable_bytes i)
