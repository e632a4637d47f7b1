-- ===== src/Checkout/Outcome.antt =====
-- What a read and a completion of a checkout session do, by how they end.
use ix_gateway.Prelude.{
  String, true, false, ◌&&◌, Option, none, some, List, [], ◌∷◌, ◌≡◌, refl, inl, inr, ◌⊎◌, find, ltb,
  ◌<◌, Bool-cases, Option-cases, ◌==◌, arith,
}
use ix_gateway.Db.Query.{Row-find, same_key}
use ix_gateway.Errors.{app, checkout_session_not_found_error}
use ix_gateway.Models.{CheckoutSession, CheckoutSessionStatus, expired, completed}
use ix_gateway.Db.{Session, Result, ok, raised}
use ix_gateway.Checkout.{
  is_open, is_completed, get_by_id, replace_session, set_status, expire_if_stale, get_open_session,
  complete_session,
}

abbrev pub row_of : String → Session → Option CheckoutSession
row_of sid s = find (λ c. c.id == sid) s.db.checkout_sessions

-- The row with a new status, written and committed.
abbrev pub IsMoved :
    CheckoutSessionStatus → Session → CheckoutSession → CheckoutSession → Session → Type 0
IsMoved status s old c t =
    (c ≡ record old { status = status; updated_at = s.now })
    × (t.db ≡ record s.db { checkout_sessions = replace_session c s.db.checkout_sessions })
    × (t.committed ≡ t.db)

abbrev pub Opens : String → Session → Result CheckoutSession × Session → Type 0
Opens sid s (raised e, t) =
    (e ≡ app checkout_session_not_found_error) × (row_of sid s ≡ none) × (t ≡ s)
Opens sid s (ok c, t) =
    (old : CheckoutSession) × (row_of sid s ≡ some old)
    × ((is_open c.status && ltb c.expires_at s.now) ≡ false)
    × (((c ≡ old) × (t ≡ s))
        ⊎ ((is_open old.status ≡ true) × (old.expires_at < s.now) × IsMoved expired s old c t))

expire_if_stale-Opens :
    (sid : String) (c : CheckoutSession) (s : Session)
    → row_of sid s ≡ some c
    → Opens sid s (expire_if_stale c s)
unfolding expire_if_stale set_status
expire_if_stale-Opens sid c s found = elim (Bool-cases (is_open c.status)) [
  | inr closed ↦ rw closed (c, found, rw closed refl, inl (refl, refl))
  | inl opened ↦ elim (Bool-cases (ltb c.expires_at s.now)) [
    | inr fresh ↦ rw (opened, fresh) (c, found, rw (opened, fresh) refl, inl (refl, refl))
    | inl stale ↦
        let late : c.expires_at < s.now = ground arith in
        rw (opened, stale) (c, found, refl, inr (opened, late, (refl, refl, refl)))
  ]
]

-- `get_open_session` raises that there is no such session, or it returns the row: as it is, or, if
-- it was open past its time, moved to expired, which is then committed. What it returns is never
-- open past its time.
pub get_open_session-Opens : (sid : String) (s : Session) → Opens sid s (get_open_session sid s)
unfolding get_open_session get_by_id
get_open_session-Opens sid s = elim (Option-cases (row_of sid s)) [
  | inl absent ↦ rw absent (refl, absent, refl)
  | inr (c, found) ↦ rw found (expire_if_stale-Opens sid c s found)
]

abbrev pub Completes : String → Session → Result CheckoutSession × Session → Type 0
Completes sid s (raised e, t) =
    (e ≡ app checkout_session_not_found_error) × (row_of sid s ≡ none) × (t ≡ s)
Completes sid s (ok c, t) =
    (old : CheckoutSession) × (row_of sid s ≡ some old)
    × (is_completed c.status ≡ true)
    × (row_of sid t ≡ some c)
    × (((c ≡ old) × (t ≡ s)) ⊎ ((is_completed old.status ≡ false) × IsMoved completed s old c t))

find-replace_session :
    (k : String) (cs : List CheckoutSession) (old new : CheckoutSession)
    → find (λ x. x.id == k) cs ≡ some old
    → (new.id == k) ≡ true
    → find (λ x. x.id == k) (replace_session new cs) ≡ some new
find-replace_session k [] old new found same = cc
find-replace_session k (x ∷ cs) old new found same = elim (Bool-cases (x.id == k)) [
  | inl here ↦ rw (same_key k x.id new.id same, here, same) refl
  | inr there ↦
      rw (same_key k x.id new.id same, there, there)
        (find-replace_session k cs old new (rw there at found) same)
]

-- `complete_session` raises that there is no such session, or its row is completed afterwards: as it
-- was, if it was completed before, and otherwise moved, from expired as from open, and committed.
pub complete_session-Completes :
    (sid : String) (s : Session) → Completes sid s (complete_session sid s)
unfolding complete_session get_by_id set_status
complete_session-Completes sid s = elim (Option-cases (row_of sid s)) [
  | inl absent ↦ rw absent (refl, absent, refl)
  | inr (c, found) ↦ rw found (elim (Bool-cases (is_completed c.status)) [
    | inl done ↦ rw done (c, found, done, found, inl (refl, refl))
    | inr undone ↦ rw undone (
      c,
      found,
      refl,
      find-replace_session sid s.db.checkout_sessions c
          (record c { status = completed; updated_at = s.now }) found
          (Row-find (λ x. x.id == sid) s.db.checkout_sessions c found).1,
      inr (undone, (refl, refl, refl)),
    )
  ])
]

-- Once `complete_session` has returned a row, it returns the same row again and changes nothing, in
-- every later session whose table of checkout sessions is the same.
pub complete_session_again :
    (sid : String) (s t u : Session) (c : CheckoutSession)
    → complete_session sid s ≡ (ok c, t)
    → u.db.checkout_sessions ≡ t.db.checkout_sessions
    → complete_session sid u ≡ (ok c, u)
unfolding complete_session get_by_id
complete_session_again sid s t u c done same =
    let completes : Completes sid s (ok c, t) = rw done at (complete_session-Completes sid s) in
    let (old, found, finished, here, how) = completes in rw (same, here, finished) refl
