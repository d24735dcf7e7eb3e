-- ===== src/Events/RunEvents/Text.antt =====
-- `finalAssistantText` and `utf8Tail` of src/run-events.ts.

use Prim.Native.String.{◌∷◌}
use Prim.Native.Char.{len_utf8}
use deepseek_harness_relay_m.Base.{
  ℕ, zero, suc, ◌+◌, ◌-◌, ◌≤◌, String, Bool, true, false, arith, leb, if◌then◌else◌,
}

-- `Buffer.byteLength(text, 'utf8')`
unfoldable pub byte_length : String → ℕ
byte_length String.[] = 0
byte_length (c ∷ s) = len_utf8 c + byte_length s

-- The rest of the text from byte `start` on, or from the next character if that byte is inside one.
unfoldable pub from_byte : ℕ → String → String
from_byte start String.[] = String.[]
from_byte zero (c ∷ s) = c ∷ s
from_byte (suc start) (c ∷ s) = from_byte (suc start - len_utf8 c) s

pub record Retained : Type 0 where
  pub text : String
  pub bytes : ℕ
  pub truncated : Bool

-- `utf8Tail`
unfoldable pub utf8_tail : String → ℕ → Retained
unfolding byte_length from_byte
utf8_tail s max_bytes =
    if leb (byte_length s) max_bytes
    then record { text = s; bytes = byte_length s; truncated = false }
    else let rest = from_byte (byte_length s - max_bytes) s in
      record { text = rest; bytes = byte_length rest; truncated = true }

byte_length-from_byte :
    (s : String) (start : ℕ) → byte_length (from_byte start s) ≤ byte_length s - start
unfolding byte_length from_byte
byte_length-from_byte String.[] start = omega arith
byte_length-from_byte (c ∷ s) zero = omega arith
byte_length-from_byte (c ∷ s) (suc start) =
    omega (arith, byte_length-from_byte s (suc start - len_utf8 c))

-- The retained text has at most the given bytes.
pub bytes-utf8_tail : (s : String) (max_bytes : ℕ) → (utf8_tail s max_bytes).bytes ≤ max_bytes
unfolding utf8_tail
bytes-utf8_tail s max_bytes = ground (arith, byte_length-from_byte s (byte_length s - max_bytes))
