-- ===== src/Types/Accounts.antt =====
-- internal/comrad/types.go: users and the compute ledger.
use comrad.Prelude.{String, Bool, false, Int64}
use comrad.Types.Nodes.{Time, zero_time}
use comrad.Types.Status.{Direction}

pub record User : Type 0 where
  pub id : String
  pub name : String
  pub compute_balance : Int64
  pub disabled : Bool
  pub created_at : Time

pub record ComputeLedgerEntry : Type 0 where
  pub id : String
  pub kind : String
  pub user_id : String
  pub task_id : String
  pub attempt_id : String
  pub report_id : String
  pub node_id : String
  pub slot_id : String
  pub profile_id : String
  pub profile_version : Int64
  pub compute_cost : Int64
  pub amount : Int64
  pub direction : Direction
  pub reason : String
  pub created_at : Time

abbrev pub zero_user : User
zero_user = record {
  id = "";
  name = "";
  compute_balance = 0;
  disabled = false;
  created_at = zero_time;
}
