-- ===== src/Spec/Request.antt =====
-- The normal form of a request (src/opencollate/sequential_spec.py), which `normalize` returns as a dict.
use Prim.Native.String.{String}
use open_collate.Common.{ℕ, Option, List, Dict}

pub record Reset : Type 0 where
  pub signal : String
  pub active : ℕ
  pub cycles : ℕ

pub record Guard : Type 0 where
  pub signal : String
  pub equals : ℕ
  pub lag : ℕ

-- What a sink is compared with: an earlier value of a signal, or a constant.
pub data Expected : Type 0 where
  from_source : String → Expected
  constant : ℕ → Expected

pub record Property : Type 0 where
  pub id : String
  pub sink : String
  pub latency : ℕ
  pub expected : Expected
  pub when : List Guard
  pub start_cycle : ℕ

-- `preprocess` is what `normalize_preprocess` returned, where the request has it.
pub record Spec {ℓ} (P : Type ℓ) : Type ℓ where
  pub files : List String
  pub top : String
  pub clock : String
  pub reset : Option Reset
  pub assumptions : Dict ℕ
  pub depth : ℕ
  pub induction : ℕ
  pub properties : List Property
  pub preprocess : Option P
