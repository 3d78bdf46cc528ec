-- ===== src/MoveProtocol/Reassembly.antt =====
-- Reassembly: what a record says does not depend on how often it is put together.
use fedimint_wallets.Prelude.{◌≡◌, refl, Option, some, none, List, or_else, text_eq_refl, arith}
use fedimint_wallets.Types.Record.{MoveRecord}
use fedimint_wallets.MoveProtocol.{
  OpArtifact, MoveParams, Found, nothing_found, derive_phase, cached_cap, merge_sources, own_cache,
  own_artifacts, assemble_move_record, gather,
}

or_else_again : {A : Type 0} (o p : Option A) → or_else o (or_else o p) ≡ or_else o p
or_else_again none p = refl
or_else_again (some x) p = refl

-- Merging the same finds with the merged record changes nothing.
merge_again :
    (p : MoveParams) (f : Found) (cached : Option MoveRecord)
    → merge_sources p f (some (merge_sources p f cached)) ≡ merge_sources p f cached
unfolding merge_sources derive_phase cached_cap
merge_again p f none = ground arith
merge_again p f (some c) = ground arith

own_self :
    (p : MoveParams) (f : Found) (cached : Option MoveRecord)
    → own_cache p (some (merge_sources p f cached)) ≡ some (merge_sources p f cached)
unfolding merge_sources
own_self p f cached = rw (text_eq_refl p.key) refl

-- Putting a record together again, with itself in the cache, gives it back.
pub assemble_again :
    (p : MoveParams) (artifacts : List OpArtifact) (cached : Option MoveRecord)
    → assemble_move_record p artifacts (some (assemble_move_record p artifacts cached))
      ≡ assemble_move_record p artifacts cached
unfolding assemble_move_record
assemble_again p artifacts cached =
    rw (own_self p (gather nothing_found (own_artifacts p artifacts)) (own_cache p cached))
      (merge_again p (gather nothing_found (own_artifacts p artifacts)) (own_cache p cached))
