-- ===== src/Types/Cache.antt =====
-- internal/comrad/types.go: what the manager records of evictions, cache intents, software updates
-- and API keys.
use comrad.Prelude.{String, List, Option, none}
use comrad.Types.Nodes.{Time, zero_time}

pub record ArtifactEvictionRecord : Type 0 where
  pub id : String
  pub node_id : String
  pub artifact_id : String
  pub reason : String
  pub status : String
  pub failure : String
  pub requested_at : Time
  pub updated_at : Time

pub record CacheIntentRecord : Type 0 where
  pub id : String
  pub node_id : String
  pub artifact_id : String
  pub action : String
  pub requested_at : Time
  pub updated_at : Time

pub record ApiKey : Type 0 where
  pub id : String
  pub user_id : String
  pub name : String
  pub token_hash : String
  pub status : String
  pub created_at : Time
  pub revoked_at : Option Time
  pub last_used_at : Option Time

pub record UpdateRecord : Type 0 where
  pub id : String
  pub kind : String
  pub version : String
  pub artifact_id : String
  pub sha256 : String
  pub delivery : String
  pub delivery_detail : String
  pub signature : String
  pub public_key : String
  pub target_nodes : List String
  pub status : String
  pub failure : String
  pub created_at : Time

abbrev pub zero_eviction : ArtifactEvictionRecord
zero_eviction = record {
  id = "";
  node_id = "";
  artifact_id = "";
  reason = "";
  status = "";
  failure = "";
  requested_at = zero_time;
  updated_at = zero_time;
}

abbrev pub zero_intent : CacheIntentRecord
zero_intent = record {
  id = "";
  node_id = "";
  artifact_id = "";
  action = "";
  requested_at = zero_time;
  updated_at = zero_time;
}

abbrev pub zero_api_key : ApiKey
zero_api_key = record {
  id = "";
  user_id = "";
  name = "";
  token_hash = "";
  status = "";
  created_at = zero_time;
  revoked_at = none;
  last_used_at = none;
}
