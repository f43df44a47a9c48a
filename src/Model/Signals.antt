-- ===== src/Model/Signals.antt =====
-- The types of internal/signals/signals.go. A map that is only read is a function, with Go's zero for
-- a missing key.
use incident_investigator.Prelude.{ℕ, String, Bool, Option, List}
use incident_investigator.Prelude.Dict.{Dict}
use incident_investigator.Model.Evidence.{Category, Evidence}

pub record LockContention : Type 0 where
  pub present : Bool
  pub entity : String
  pub holder_ids : List String
  pub waiter_ids : List String
  pub serialized_release : Bool
  pub missing_lock_timeouts : Bool
  pub healthy_database_metrics : Bool

pub record Signals : Type 0 where
  pub categories : Category → ℕ
  pub keywords : String → Bool
  pub first_deployment : Option Evidence
  pub incident_onset : Option Evidence
  pub recovery : Option Evidence
  pub deploy_before_incident : Bool
  pub deploy_after_incident : Bool
  pub entities : Dict ℕ
  pub lock : LockContention
