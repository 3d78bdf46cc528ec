-- ===== src/MoveProtocol/Resume.antt =====
-- Resumption: a step whose artifact is known anywhere is not issued again.
use fedimint_wallets.Prelude.{
  ◌≡◌, refl, Bool, true, false, not, ◌&&◌, ◌||◌, Option, some, none, List, [], ◌∷◌, is_some,
  and_then, or_else, any, arith, sym, ◌∙◌,
}
use fedimint_wallets.Types.Record.{MoveRecord}
use fedimint_wallets.MoveProtocol.{
  create_invoice, pay_invoice, Leg, send_leg, receive_leg, OpArtifact, MoveParams, Found,
  nothing_found, take_receive, take_send, take_leg, take_artifact, gather, merge_sources, own_cache,
  own_artifacts, assemble_move_record, next_step, step_in_flight,
}

abbrev pub is_send : Leg → Bool
is_send send_leg = true
is_send receive_leg = false

-- The operation log has a send of the move, or a receive with its invoice.
abbrev pub sends : OpArtifact → Bool
sends a = is_send a.leg

abbrev pub receives : OpArtifact → Bool
receives a = not (is_send a.leg) && is_some a.invoice

take_leg_send :
    (l : Leg) (a : OpArtifact) (f : Found)
    → is_some (take_leg l a f).send_op ≡ (is_some f.send_op || is_send l)
unfolding take_leg take_receive take_send
take_leg_send send_leg a f = ground arith
take_leg_send receive_leg a f = ground arith

take_leg_atomic :
    (l : Leg) (a : OpArtifact) (f : Found)
    → is_some f.recv_op ≡ is_some f.invoice
    → is_some (take_leg l a f).recv_op ≡ is_some (take_leg l a f).invoice
unfolding take_leg take_receive take_send
take_leg_atomic send_leg a f h = h
take_leg_atomic receive_leg a f h = ground arith

take_leg_invoice :
    (l : Leg) (a : OpArtifact) (f : Found)
    → is_some f.recv_op ≡ is_some f.invoice
    → is_some (take_leg l a f).invoice
      ≡ (is_some f.invoice || (not (is_send l) && is_some a.invoice))
unfolding take_leg take_receive take_send
take_leg_invoice send_leg a f h = ground arith
take_leg_invoice receive_leg a f h = ground arith

gather_send :
    (f : Found) (xs : List OpArtifact)
    → is_some (gather f xs).send_op ≡ (is_some f.send_op || any sends xs)
unfolding gather any take_artifact
gather_send f [] = ground arith
gather_send f (a ∷ xs) =
    let g = record f {
      amount = or_else f.amount (some a.amount);
      fee_cap = or_else f.fee_cap a.fee_cap;
    } in
    ground (arith, gather_send (take_artifact a f) xs, take_leg_send a.leg a g)

gather_invoice :
    (f : Found) (xs : List OpArtifact)
    → is_some f.recv_op ≡ is_some f.invoice
    → (is_some (gather f xs).recv_op ≡ is_some (gather f xs).invoice)
      × (is_some (gather f xs).invoice ≡ (is_some f.invoice || any receives xs))
unfolding gather any take_artifact
gather_invoice f [] h = (h, ground arith)
gather_invoice f (a ∷ xs) h =
    let g = record f {
      amount = or_else f.amount (some a.amount);
      fee_cap = or_else f.fee_cap a.fee_cap;
    } in
    let (joint, found) = gather_invoice (take_artifact a f) xs (take_leg_atomic a.leg a g h) in
    (joint, ground (arith, found, take_leg_invoice a.leg a g h))

-- What the three sources know of a move together.
abbrev pub knows_send : MoveParams → List OpArtifact → Option MoveRecord → Bool
knows_send p artifacts cached =
    any sends (own_artifacts p artifacts) || is_some (and_then (own_cache p cached) λ c. c.send_op)

abbrev pub knows_invoice : MoveParams → List OpArtifact → Option MoveRecord → Bool
knows_invoice p artifacts cached =
    any receives (own_artifacts p artifacts)
    || is_some (and_then (own_cache p cached) λ c. c.invoice)

is_some-or_else : {A : Type 0} (x y : Option A) → is_some (or_else x y) ≡ (is_some x || is_some y)
is_some-or_else none y = refl
is_some-or_else (some a) y = refl

module _ (p : MoveParams) (artifacts : List OpArtifact) (cached : Option MoveRecord) where
  assembled_send :
      is_some (assemble_move_record p artifacts cached).send_op ≡ knows_send p artifacts cached
  unfolding assemble_move_record merge_sources
  assembled_send =
      is_some-or_else (gather nothing_found (own_artifacts p artifacts)).send_op
        (and_then (own_cache p cached) λ c. c.send_op)
      ∙ rw (gather_send nothing_found (own_artifacts p artifacts)) refl

  assembled_invoice :
      is_some (assemble_move_record p artifacts cached).invoice ≡ knows_invoice p artifacts cached
  unfolding assemble_move_record merge_sources
  assembled_invoice =
      is_some-or_else (gather nothing_found (own_artifacts p artifacts)).invoice
        (and_then (own_cache p cached) λ c. c.invoice)
      ∙ rw ((gather_invoice nothing_found (own_artifacts p artifacts) refl).1) refl

pub next_step-create :
    (r : MoveRecord)
    → next_step r ≡ create_invoice
    → (is_some r.invoice ≡ false) × (is_some r.send_op ≡ false)
unfolding next_step step_in_flight
next_step-create r e = ground arith

pub next_step-pay :
    (r : MoveRecord)
    → next_step r ≡ pay_invoice
    → (r.send_required ≡ true) × (is_some r.invoice ≡ true) × (is_some r.send_op ≡ false)
unfolding next_step step_in_flight
next_step-pay r e = ground arith

-- A resumed move mints an invoice only if neither its operation log nor its own cached record has
-- an invoice or a payment of it.
pub resume_creates_once :
    (p : MoveParams) (artifacts : List OpArtifact) (cached : Option MoveRecord)
    → next_step (assemble_move_record p artifacts cached) ≡ create_invoice
    → (knows_invoice p artifacts cached ≡ false) × (knows_send p artifacts cached ≡ false)
resume_creates_once p artifacts cached e =
    let (i, s) = next_step-create (assemble_move_record p artifacts cached) e in
    (sym (assembled_invoice p artifacts cached) ∙ i, sym (assembled_send p artifacts cached) ∙ s)

-- A resumed move pays only if it is one that sends, its invoice is known to the operation
-- log or the cache, and neither has a payment of it.
pub resume_pays_once :
    (p : MoveParams) (artifacts : List OpArtifact) (cached : Option MoveRecord)
    → next_step (assemble_move_record p artifacts cached) ≡ pay_invoice
    → (p.send_required ≡ true)
      × (knows_invoice p artifacts cached ≡ true)
      × (knows_send p artifacts cached ≡ false)
unfolding assemble_move_record merge_sources
resume_pays_once p artifacts cached e =
    let (r, i, s) = next_step-pay (assemble_move_record p artifacts cached) e in
    (r, sym (assembled_invoice p artifacts cached) ∙ i, sym (assembled_send p artifacts cached) ∙ s)
