-- ===== src/Runtime.antt =====
-- internal/runtime/manager.go: the types of the manager of the Skill directories.
pub mod Copy
pub mod Inventory
pub mod Preflight
pub mod Extract
pub mod Stage
pub mod Paths
pub mod Replace
pub mod Manager
mod Tests
use toolhub.Common.{ℕ, String, Bool, Option, List}
use toolhub.Common.Int.{ℤ}
use toolhub.Files.{Bytes, Node}
use toolhub.Protocol.Errors.{Error}

-- bridgeprotocol.InventoryMember
pub record InventoryMember : Type 0 where
  pub id : String
  pub kind : String
  pub name : String
  pub slug : String
  pub description : String
  pub content_hash : String
  pub protected : Bool
  pub scope : String
  pub revision : ℤ
  pub secret_keys : List String
  pub source : String
  pub provider : String
  pub category : String
  pub trust : String
  pub importable : Bool
  pub eligibility_reason : String

pub record ScanResult : Type 0 where
  pub revision : String
  pub members : List InventoryMember

-- bridgeprotocol.Artifact
pub record Artifact : Type 0 where
  pub version_id : String
  pub sha256 : String
  pub archive : Bytes

pub record DiffItem : Type 0 where
  pub kind : String
  pub member_id : String
  pub name : String
  pub reason : String

pub record Diff : Type 0 where
  pub add : List DiffItem
  pub replace : List DiffItem
  pub delete : List DiffItem
  pub excluded : List DiffItem

-- What the operations change: the Skill root (`none` where nothing stands there), the directories
-- named .toolhub-old-… beside it, and the backups of the target by their identifier.
pub record Disk : Type 0 where
  pub root : Option Node
  pub leftovers : List Node
  pub backups : List (String × Node)

-- How the system calls of atomicReplaceDirectory end: `true` is success.
pub record ReplaceCalls : Type 0 where
  pub moves_target : Bool
  pub moves_stage : Bool
  pub moves_back : Bool
  pub removes_old : Bool

-- How the other calls of a replacement end. `prepare` is an error of what comes before the copy (the
-- checks of the path, and making the directories), `writes` one of the writes into the new directory.
pub record StageCalls : Type 0 where
  pub prepare : Option Error
  pub writes : Option Error
  pub replace : ReplaceCalls
