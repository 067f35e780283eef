-- ===== src/Deployment/Script.antt =====
-- What happens outside of the service while it makes one attempt to deploy: the inventory that it
-- finds, and how each call of the database, of a node and of a hook ends.
use birdbox.Prelude.{String, Bool, Option, List}
use birdbox.Prelude.Text.{Text}
use birdbox.Deployment.State.{
  ManagedNode, Inventory, ConfigBundle, Active, Failure, Result, Answer, Call, Write,
}

-- `conflicts`: another write came first, and `breaks`: nothing was written; in both cases the read
-- that would confirm a write is made. Where it cannot be made, the write is there (`loses`) or not
-- (`fails`).
pub data Commit (Rest : Type 0) : Type 0 where
  commits : Commit Rest
  conflicts : Inventory Rest → Commit Rest
  breaks loses fails : Failure → Commit Rest

pub record Script (Rest : Type 0) : Type 0 where
  pub found : Inventory Rest
  pub unreadable : Option Failure
  pub stage : ManagedNode → ConfigBundle → Answer
  pub journal_id : String
  pub opens : Write
  pub apply : ManagedNode → ConfigBundle → Answer
  pub apply_hook : ManagedNode → Option Failure
  pub commit : Commit Rest
  pub clears : Write
  pub marks : Write
  pub roll_back : ManagedNode → ConfigBundle → Answer
  pub rollback_hook : ManagedNode → Option Failure
  pub clears_again : Write

-- What a caller of `mutateAndApply` asks for, and the functions with which the service was made.
pub record Plan (Rest A : Type 0) : Type 0 where
  pub mutate : Inventory Rest → Result (Inventory Rest × A)
  pub validate : Inventory Rest → Result (Inventory Rest)
  pub node_ids_for_draft : A → Inventory Rest → List String
  pub find_node : Inventory Rest → String → Result ManagedNode
  pub config_for_node : Inventory Rest → ManagedNode → ConfigBundle
  pub empty_config_for_node : ManagedNode → ConfigBundle
  pub same_stored : Inventory Rest → Inventory Rest → Bool
  pub validation_error : Text → Text → Text → Text

-- The store, the stored journal, and the commands sent so far.
pub record World (Rest : Type 0) : Type 0 where
  pub inventory : Inventory Rest
  pub journal : Option (Active Rest)
  pub calls : List Call
