-- ===== src/Redfish/Messages/Base.antt =====
-- A message of the registry as JSON (src/core/route/redfish/error_messages.cpp).
use obmc_yadro_webapp.Prelude.{List, ◌++◌, map}
use obmc_yadro_webapp.Prelude.Text.{Text, text}
use obmc_yadro_webapp.Json.{Json, str, arr, obj, end, field, to_items}

-- The object that every function builds, its members in the order in which it holds them.
unfoldable pub message_json : Text → Text → List Text → Text → Text → Json
message_json id message args severity resolution = obj (
    field (text "@odata.type") (str (text "#Message.v1_1_1.Message")) (
      field (text "Message") (str message) (
        field (text "MessageArgs") (arr (to_items (map str args))) (
          field (text "MessageId") (str (text "Base.1.8.1." ++ id)) (
            field (text "MessageSeverity") (str severity)
              (field (text "Resolution") (str resolution) end))))))
