-- ===== src/Gateway/Responses/Told.antt =====
-- What an answer tells of the money.
use mathlib.Core.Path.{subst}
use ix_gateway.Prelude.{String, true, Option, ◌≡◌, sym, ◌⊎◌}
use ix_gateway.Errors.{Exn}
use ix_gateway.Errors.Render.{program}
use ix_gateway.Errors.Render.Documented.{status_of, handle_exception-Documented}
use ix_gateway.Env.{Env}
use ix_gateway.Db.{Session, Result, ok, raised, get_db}
use ix_gateway.Payment.Life.{Tables}
use ix_gateway.Payment.Life.Refines.{tables}
use ix_gateway.Gateway.{Request, moves_money}
use ix_gateway.Gateway.Refusals.{Leaves, Refuses, get_db-Refuses}
use ix_gateway.Gateway.Responses.{
  Body, Answer, success, failure, answer_of, answer, respond, dropped, dropped-respond,
}

abbrev pub Tells : Request → Tables → Answer × Session → Type 0
Tells r b (success _ _, t) = (moves_money r ≡ true) ⊎ (tables t.committed ≡ b)
Tells r b (failure j, t) =
    (j.status_code ≡ status_of j.content.error_code) × Leaves r b (tables t.committed)

module _ (env : Env) (detail_of : Exn → Option String) (r : Request) (b : Tables)
    (s : Session) where
  told :
      (o : Result Body × Session)
      → Refuses r b (get_db (λ _. dropped o) s)
      → let (x, t) = get_db (λ _. o) s in Tells r b (answer_of detail_of r x, t)
  unfolding get_db
  told (ok body, t) d = d
  told (raised e, t) d = ((handle_exception-Documented detail_of (program e)).0, d)

-- If nothing is pending in a session, then a request that is answered with an error has the HTTP
-- status that belongs to its error code, and it has left the committed tables of intents and of
-- ledger entries as they were; only a creation of a checkout session may also have committed its
-- intent, one row with two entries of its amount. A request that is answered with success has left
-- the two tables as they were unless it is one of the mutating payment requests, a creation of a
-- checkout session or a webhook delivery.
pub answer-Tells :
    (env : Env) (detail_of : Exn → Option String) (r : Request) (s : Session)
    → s.db ≡ s.committed
    → Tells r (tables s.committed) (answer env detail_of r s)
unfolding answer get_db
answer-Tells env detail_of r s rests =
    told env detail_of r (tables s.committed) s (respond env r s) (
      subst (λ h. Refuses r (tables s.committed) (get_db (λ _. h) s))
        (sym (dropped-respond env s r)) (get_db-Refuses env r s rests))
