-- ===== src/Broker/Journal/Keys.antt =====
-- The composite key of src/relay-broker/operation-journal.ts, `${principal}\u0000${key}`.

use Prim.Native.Char.{Char, code}
use text.Mathlib.TextLemmas.{cons-append, nil-append, cons-eq-cons}
use deepseek_harness_relay_m.Base.{
  String, ◌≡◌, refl, sym, ap, ◌∙◌, Bool, true, false, arith, ◌==◌, nat_eq, if◌then◌else◌,
}
use deepseek_harness_relay_m.Broker.Journal.{key}

-- The text has no U+0000.
abbrev pub no_nul : String → Bool
no_nul String.[] = true
no_nul (String.◌∷◌ c s) = if code c == 0 then false else no_nul s

abbrev nul : Char
nul = "\0"

key_empty : (k : String) → key "" k ≡ String.◌∷◌ nul k
unfolding key
key_empty k = nil-append _ ∙ (cons-append nul "" k ∙ ap (String.◌∷◌ nul) (nil-append k))

key-cons : (c : Char) (s k : String) → key (String.◌∷◌ c s) k ≡ String.◌∷◌ c (key s k)
unfolding key
key-cons c s k = cons-append c s _

-- A principal that begins with the separator holds a NUL.
starts_with_nul : (c : Char) (s : String) → no_nul (String.◌∷◌ c s) ≡ true → nul ≡ c → ⊥
starts_with_nul c s h e = let z : code c ≡ 0 = sym (ap code e) in ground arith

-- Two principals without a NUL never share an entry of the index: the composite key determines the
-- principal and the idempotency key.
pub key-injective :
    (p q k l : String) → no_nul p ≡ true → no_nul q ≡ true → key p k ≡ key q l → (p ≡ q) × (k ≡ l)
key-injective String.[] String.[] k l hp hq e =
    (refl, (cons-eq-cons.0 (sym (key_empty k) ∙ (e ∙ key_empty l))).1)
key-injective String.[] (String.◌∷◌ d t) k l hp hq e =
    absurd (starts_with_nul d t hq (cons-eq-cons.0 (sym (key_empty k) ∙ (e ∙ key-cons d t l))).0)
key-injective (String.◌∷◌ c s) String.[] k l hp hq e =
    absurd
      (starts_with_nul c s hp (sym (cons-eq-cons.0 (sym (key-cons c s k) ∙ (e ∙ key_empty l))).0))
key-injective (String.◌∷◌ c s) (String.◌∷◌ d t) k l hp hq e =
    let (heads, tails) = cons-eq-cons.0 (sym (key-cons c s k) ∙ (e ∙ key-cons d t l)) in
    let (texts, keys) = key-injective s t k l (ground arith) (ground arith) tails in (cc, keys)
