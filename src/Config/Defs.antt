-- ===== src/Config/Defs.antt =====
-- The descriptors of engine/src/hopeit/app/config.py, and AuthType of
-- engine/src/hopeit/server/config.py.
use hopeit_engine.Common.{Bool, true, false, Option, none, List, [], ◌∷◌, String}

pub record AppDescriptor : Type 0 where
  pub name : String
  pub version : String

pub data EventType : Type 0 where
  get post stream service multipart setup : EventType

-- StreamQueue.AUTO
abbrev pub auto : String
auto = "AUTO"

-- StreamQueue.default_queues()
abbrev pub default_queues : List String
default_queues = auto ∷ []

pub record ReadStreamDescriptor : Type 0 where
  pub name : String
  pub consumer_group : String
  pub queues : List String

pub data StreamQueueStrategy : Type 0 where
  propagate drop : StreamQueueStrategy

pub record WriteStreamDescriptor : Type 0 where
  pub name : String
  pub queues : List String
  pub queue_strategy : StreamQueueStrategy

pub data AuthType : Type 0 where
  unsecured basic bearer refresh : AuthType

pub data EventPlugMode : Type 0 where
  standalone on_app : EventPlugMode

abbrev pub same_mode : EventPlugMode → EventPlugMode → Bool
same_mode standalone standalone = true
same_mode standalone on_app = false
same_mode on_app standalone = false
same_mode on_app on_app = true

pub data EventConnectionType : Type 0 where
  get post : EventConnectionType

pub record EventConnection : Type 0 where
  pub app_connection : String
  pub event : String
  pub kind : EventConnectionType

pub record EventDescriptor : Type 0 where
  pub event_type : EventType
  pub plug_mode : EventPlugMode
  pub route : Option String
  pub impl : Option String
  pub connections : List EventConnection
  pub read_stream : Option ReadStreamDescriptor
  pub write_stream : Option WriteStreamDescriptor
  pub auth : List AuthType
  pub setting_keys : List String
  pub dataobjects : List String
  pub group : String

abbrev pub default_group : String
default_group = "DEFAULT"

-- `EventDescriptor(type=event_type)`: every other field at its default.
abbrev pub event_descriptor : EventType → EventDescriptor
event_descriptor event_type = record {
  event_type = event_type;
  plug_mode = standalone;
  route = none;
  impl = none;
  connections = [];
  read_stream = none;
  write_stream = none;
  auth = [];
  setting_keys = [];
  dataobjects = [];
  group = default_group;
}
