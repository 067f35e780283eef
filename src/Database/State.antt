-- ===== src/Database/State.antt =====
-- The data of src/database.ts. A document is of any type `V`, and a missing field is `none`.
use birdbox.Prelude.{ℕ, String, Option, ◌++◌}
use birdbox.Prelude.Text.{Text, units}

-- A `BirdboxError`, and any other exception with the code 0.
pub record Problem : Type 0 where
  pub status : ℕ
  pub code : String
  pub message : Text

unfoldable pub database_error : ℕ → String → Text → Problem
database_error status code message = record { status = status; code = code; message = message }

pub data Answer (A : Type 0) : Type 0 where
  done : A → Answer A
  fails : Problem → Answer A

pub record StateRecord (V : Type 0) : Type 0 where
  pub revision : ℕ
  pub value : V

pub data Actor : Type 0 where
  admin anonymous system : Actor

pub data AuditOutcome : Type 0 where
  success error : AuditOutcome

pub record AuditEvent : Type 0 where
  pub id : Option ℕ
  pub occurred_at : String
  pub request_id : String
  pub actor : Actor
  pub method : String
  pub path : String
  pub status : ℕ
  pub outcome : AuditOutcome
  pub remote_address : Option String
  pub user_agent : Option String
  pub detail : Option Text

-- What a mutator does: it throws, or returns a new value, if there is one, and a result.
pub data MutationOutcome (V R : Type 0) : Type 0 where
  throws : Problem → MutationOutcome V R
  returns : Option V → Option R → MutationOutcome V R

pub record MutationResult (V R : Type 0) : Type 0 where
  pub value : V
  pub result : Option R
  pub revision : ℕ

abbrev pub deployment_locked : Problem
deployment_locked = database_error 409 "DEPLOYMENT_LOCKED" (units "另一个 Birdbox 部署正在进行")

abbrev pub state_conflict : Problem
state_conflict = database_error 409 "STATE_CONFLICT" (units "数据已被其他操作更新，请刷新后重试")

abbrev pub not_initialised : String → Problem
not_initialised key = database_error 0 "" (units "状态 " ++ units key ++ units " 初始化失败")
