-- ===== src/Database/Transaction.antt =====
-- `get_db` of apps/identity_api/dependencies.py: a request runs in a transaction that is committed
-- when it returns and rolled back when it raises.
use agent_identity_lab.Exec.{Result, ok, err}
use agent_identity_lab.Database.{World}

abbrev pub finish {ℓ} : {A : Type ℓ} → Result A × World → Result A × World
finish (ok a, w) = (ok a, record w { durable = w.db })
finish (err e, w) = (err e, record w { db = w.durable })

-- A request on a fresh database session.
unfoldable pub with_db {ℓ} : {A : Type ℓ} → (World → Result A × World) → World → Result A × World
with_db handler w = finish (handler (record w { db = w.durable }))
