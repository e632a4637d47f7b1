-- ===== src/Merchants/Upholds.antt =====
-- An invariant of the payment service under the calls on merchants.
use ix_gateway.Prelude.{String, Bool-cases, any, find, inl, inr, ◌==◌, ◌||◌, Option-cases}
use ix_gateway.Prelude.Text.{concat, lower}
use ix_gateway.Env.{Env}
use ix_gateway.Db.{Session, uuid4_hex}
use ix_gateway.Merchants.{new_merchant, commit_merchant, create_merchant, get_merchant}
use ix_gateway.Payment.Upholds.{Invariant, Meets, Upholds, Upholds-ok, Upholds-raised}

module _ {I : Invariant} where
  pub create_merchant-Upholds :
      (env : Env) (name email : String) (s : Session)
      → Meets I s.db
      → Meets I s.committed
      → Upholds I (create_merchant env name email s)
  unfolding create_merchant uuid4_hex commit_merchant
  create_merchant-Upholds env name email s h k =
      let m = new_merchant (concat "mer_" (env.uuid_hex s.uuids)) name (lower email) s.now in
      elim (Bool-cases (any (λ q. q.id == m.id || q.email == m.email) s.db.merchants)) [
        | inl taken ↦ rw taken (Upholds-raised _ _ k)
        | inr free ↦ rw free (record { books = (h, h) })
      ]

  pub get_merchant-Upholds :
      (mid : String) (s : Session)
      → Meets I s.db
      → Meets I s.committed
      → Upholds I (get_merchant mid s)
  unfolding get_merchant
  get_merchant-Upholds mid s h k = elim (Option-cases (find (λ m. m.id == mid) s.db.merchants)) [
    | inl none_found ↦ rw none_found (Upholds-raised _ _ k)
    | inr (m, found) ↦ rw found (Upholds-ok _ _ h k)
  ]
