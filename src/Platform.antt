-- ===== src/Platform.antt =====
-- What the program takes from other packages and from its runtime: `slugify` of python-slugify, the
-- built-in `hash`, and the hex UUID that `hashlib` and `uuid` make of a Thing ID. Every definition
-- that uses one takes this record, and a theorem that relies on more than a function says so.
use wot_py.Prelude.{ℕ, String, List}

-- wotpy/protocols/enums.py: Protocols
pub data Protocol : Type 0 where
  http websockets coap mqtt : Protocol

-- The `op` of a form: absent, one verb or a list of verbs.
pub data Op : Type 0 where
  absent : Op
  single : String → Op
  several : List String → Op

-- The tuple that `Form.id` hashes.
pub record FormKey : Type 0 where
  pub protocol : Protocol
  pub href : String
  pub content_type : String
  pub op : Op

pub record Platform : Type 0 where
  pub slugify : String → String
  pub hash : FormKey → ℕ
  pub uuid : String → String
