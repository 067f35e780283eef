-- ===== src/Deployment/State.antt =====
-- The data of src/deployment-service.ts. Of an inventory the service reads the nodes and the
-- sessions; the rest of it, of any type `Rest`, it passes on.
use birdbox.Prelude.{
  ◌≡◌, ◌⊎◌, refl, inl, inr, String, Bool, true, false, Option, none, some, List, if◌then◌else◌,
  is_empty,
}
use birdbox.Prelude.Text.{Text}

-- The settings are the fields of a node that only the remote commands read.
pub record ManagedNode : Type 0 where
  pub id : String
  pub name : Text
  pub settings : String

pub record BgpSession : Type 0 where
  pub id : String
  pub node_id : String
  pub protocol_name : String

pub record Inventory (Rest : Type 0) : Type 0 where
  pub nodes : List ManagedNode
  pub sessions : List BgpSession
  pub rest : Rest

pub record ResourceFile : Type 0 where
  pub relative_path : String
  pub content : Text

pub record ConfigBundle : Type 0 where
  pub main : Text
  pub resources : List ResourceFile
  pub removed_resources : List String

pub record Target : Type 0 where
  pub node : ManagedNode
  pub config : ConfigBundle

pub data Direction : Type 0 where
  forward rollback : Direction

pub record Active (Rest : Type 0) : Type 0 where
  pub id : String
  pub direction : Direction
  pub before : Inventory Rest
  pub after : Inventory Rest
  pub forward_targets : List Target
  pub rollback_targets : List Target

-- An exception, with the code by which the service knows a conflict.
pub record Failure : Type 0 where
  pub code : Option String
  pub message : Text

pub data Result (A : Type 0) : Type 0 where
  ok : A → Result A
  err : Failure → Result A

infixl 5 ◌>>=◌
abbrev pub ◌>>=◌ : {A B : Type 0} → Result A → (A → Result B) → Result B
ok a >>= f = f a
err e >>= f = err e

pub Result-cases :
    {A : Type 0} (r : Result A) → ((a : A) × (r ≡ ok a)) ⊎ ((f : Failure) × (r ≡ err f))
Result-cases (ok a) = inl (a, refl)
Result-cases (err f) = inr (f, refl)

-- A remote command answers, or throws.
pub data Answer : Type 0 where
  replied : Bool → Text → Text → Answer
  threw : Failure → Answer

abbrev pub plain_failure : Text → Failure
plain_failure text = record { code = none; message = text }

-- `stderr || stdout || fallback`
abbrev pub first_text : Text → Text → Text → Text
first_text stderr stdout fallback =
    if is_empty stderr then (if is_empty stdout then fallback else stdout) else stderr

-- What a command's answer throws.
unfoldable pub failure_of : Text → Answer → Option Failure
failure_of fallback (replied true stderr stdout) = none
failure_of fallback (replied false stderr stdout) =
    some (plain_failure (first_text stderr stdout fallback))
failure_of fallback (threw f) = some f

pub data NodeStatus : Type 0 where
  not_attempted success rolled_back unknown failed : NodeStatus

pub record NodeResult : Type 0 where
  pub node_id : String
  pub status : NodeStatus
  pub error : Option Text

pub record Report : Type 0 where
  pub applied : Bool
  pub transaction_id : Option String
  pub node_ids : List String
  pub nodes : List (String × Text)
  pub node_results : List NodeResult
  pub rollback_attempted : Bool
  pub rollback_succeeded : Bool
  pub sessions : List BgpSession

-- The remote commands, in the order in which they were sent.
pub data Call : Type 0 where
  stages applies rolls_back : ManagedNode → ConfigBundle → Call

-- How a write of the journal ends: it goes through; nothing is written; or it is written, and the
-- answer is lost. In the latter two cases the caller gets an exception.
pub data Write : Type 0 where
  writes : Write
  unwritten unanswered : Failure → Write
