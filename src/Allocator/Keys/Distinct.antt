-- ===== src/Allocator/Keys/Distinct.antt =====
-- What the keys of money moves tell apart (`idem_move`, `idem_evac`).
use fedimint_wallets.Prelude.{
  ℕ, ◌^◌, ◌<◌, ◌≡◌, refl, sym, ap, ◌∙◌, Bool, true, false, List, [], ◌∷◌, arith, if◌then◌else◌,
  length, codes,
}
use fedimint_wallets.Prelude.Print.{hex-injective, decimal-injective, length-hex, append_cancel}
use fedimint_wallets.Types.Federation.{FederationId, Occurrence}
use fedimint_wallets.Types.Action.{IdempotencyKey}
use fedimint_wallets.Allocator.Keys.{to_hex, pair_suffix, idem_move, idem_evac}

-- 32 bytes, and the 20 digits that a `u64` needs.
abbrev pub IsId : FederationId → Type 0
IsId id = id < 16 ^ 64

abbrev pub IsOccurrence : Occurrence → Type 0
IsOccurrence o = o < 10 ^ 20

to_hex-injective : (s t : FederationId) → IsId s → IsId t → to_hex s ≡ to_hex t → s ≡ t
unfolding to_hex
to_hex-injective s t hs ht e = hex-injective 64 s t hs ht e

length-to_hex : (s t : FederationId) → length (to_hex s) ≡ length (to_hex t)
unfolding to_hex
length-to_hex s t = length-hex 64 s ∙ sym (length-hex 64 t)

pair_suffix-injective :
    (s d o s' d' o' : ℕ)
    → IsId s
    → IsId d
    → IsOccurrence o
    → IsId s'
    → IsId d'
    → IsOccurrence o'
    → pair_suffix s d o ≡ pair_suffix s' d' o'
    → (s ≡ s') × (d ≡ d') × (o ≡ o')
unfolding pair_suffix
pair_suffix-injective s d o s' d' o' hs hd ho hs' hd' ho' e =
    let (es, rest) = append_cancel (to_hex s) (to_hex s') _ _ (length-to_hex s s') e in
    let (colon, rest') = append_cancel (codes ":") (codes ":") _ _ refl rest in
    let (ed, tail) = append_cancel (to_hex d) (to_hex d') _ _ (length-to_hex d d') rest' in
    let (colon', eo) = append_cancel (codes ":") (codes ":") _ _ refl tail in
    (
      to_hex-injective s s' hs hs' es,
      to_hex-injective d d' hd hd' ed,
      decimal-injective o o' ho ho' eo,
    )

-- The first code point tells the two kinds apart.
abbrev first_code : List ℕ → ℕ
first_code [] = 0
first_code (c ∷ cs) = c

-- The key of a money move: an evacuation's or a rebalance's.
abbrev pub money_key : Bool → FederationId → FederationId → Occurrence → IdempotencyKey
money_key evac s d o = if evac then idem_evac s d o else idem_move s d o

-- For 32-byte federation ids and 64-bit occurrences, two money moves under one key are of one
-- kind, between the same two federations, and in the same occurrence.
pub money_key-injective :
    (evac evac' : Bool) (s d o s' d' o' : ℕ)
    → IsId s
    → IsId d
    → IsOccurrence o
    → IsId s'
    → IsId d'
    → IsOccurrence o'
    → money_key evac s d o ≡ money_key evac' s' d' o'
    → (evac ≡ evac') × (s ≡ s') × (d ≡ d') × (o ≡ o')
unfolding idem_move idem_evac
money_key-injective true true s d o s' d' o' hs hd ho hs' hd' ho' e =
    let (prefix, rest) = append_cancel (codes "evac:") (codes "evac:") _ _ refl e in
    let same = pair_suffix-injective s d o s' d' o' hs hd ho hs' hd' ho' rest in
    (refl, same.0, same.1, same.2)
money_key-injective false false s d o s' d' o' hs hd ho hs' hd' ho' e =
    let (prefix, rest) = append_cancel (codes "move:") (codes "move:") _ _ refl e in
    let same = pair_suffix-injective s d o s' d' o' hs hd ho hs' hd' ho' rest in
    (refl, same.0, same.1, same.2)
money_key-injective true false s d o s' d' o' hs hd ho hs' hd' ho' e =
    absurd (omega (arith, ap first_code e))
money_key-injective false true s d o s' d' o' hs hd ho hs' hd' ho' e =
    absurd (omega (arith, ap first_code e))
