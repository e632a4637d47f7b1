-- ===== src/Db/Keeps.antt =====
-- What a call keeps of the session, however it ends.
use ix_gateway.Db.{Session, Result}

pub record Keeps (Q : Session → Type 0) {A : Type 0} (outcome : Result A × Session) : Type 0 where
  pub kept : Q outcome.1
