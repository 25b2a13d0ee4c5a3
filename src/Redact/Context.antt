-- ===== src/Redact/Context.antt =====
-- redact/redactor.go: what a request's context holds for the masking of messages. A context that is nil
-- has nothing set. The resolver is kept apart, as an argument of the functions that look for it.
use kratos_kit.Base.{String, Option, none, some, ◌==◌, if◌then◌else◌}
use kratos_kit.Base.Int.{ℤ, pos}
use kratos_kit.Redact.Policy.{FieldPolicy}

-- Direction; unset is its zero
pub data Direction : Type 0 where
  unset direction_request direction_response : Direction

pub record Context : Type 0 where
  pub scene : Option String
  pub operation : Option String
  pub direction : Option Direction
  pub tenant_id : Option ℤ

-- context.Background()
abbrev pub background : Context
background = record { scene = none; operation = none; direction = none; tenant_id = none }

-- WithScene, WithOperation, WithDirection and WithTenantID
abbrev pub with_scene : Context → String → Context
with_scene ctx code = record ctx { scene = some (if code == "" then "*" else code) }

abbrev pub with_operation : Context → String → Context
with_operation ctx name = record ctx { operation = some name }

abbrev pub with_direction : Context → Direction → Context
with_direction ctx d = record ctx { direction = some d }

abbrev pub with_tenant_id : Context → ℤ → Context
with_tenant_id ctx id = record ctx { tenant_id = some id }

abbrev scene_of : Option String → String
scene_of none = "*"
scene_of (some code) = if code == "" then "*" else code

-- SceneFromContext, OperationFromContext, DirectionFromContext and TenantIDFromContext
abbrev pub scene_from_context : Context → String
scene_from_context ctx = scene_of ctx.scene

abbrev name_of : Option String → String
name_of none = ""
name_of (some name) = name

abbrev pub operation_from_context : Context → String
operation_from_context ctx = name_of ctx.operation

abbrev direction_of : Option Direction → Direction
direction_of none = direction_response
direction_of (some unset) = direction_response
direction_of (some direction_request) = direction_request
direction_of (some direction_response) = direction_response

abbrev pub direction_from_context : Context → Direction
direction_from_context ctx = direction_of ctx.direction

abbrev id_of : Option ℤ → ℤ
id_of none = pos 0
id_of (some id) = id

abbrev pub tenant_id_from_context : Context → ℤ
tenant_id_from_context ctx = id_of ctx.tenant_id

-- PolicyResolver: Resolve, with no policy for false
abbrev pub PolicyResolver : Type 0
PolicyResolver = Context → String → Option FieldPolicy
