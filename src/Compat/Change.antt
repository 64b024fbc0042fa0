-- ===== src/Compat/Change.antt =====
-- The data that both breaking-change engines share: server/cvtservice/compatibility_engine.go
-- (over the generated protobuf messages) and pkg/cvt/compatibility.go.
use cvt.Base.{String}

pub data BreakingChangeType : Type 0 where
  endpoint_removed required_field_added type_changed required_parameter_added
        response_schema_changed enum_value_removed :
      BreakingChangeType

-- An absent `old_value` or `new_value` is the empty text, as in Go.
pub record BreakingChange : Type 0 where
  pub change_type : BreakingChangeType
  pub path : String
  pub method : String
  pub description : String
  pub old_value : String
  pub new_value : String
