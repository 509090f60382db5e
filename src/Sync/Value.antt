-- ===== src/Sync/Value.antt =====
-- `canonicalLogValue` and `canonicalLogPatch`: what a client sends of a log, made canonical.
use open_log_tool_server.Base.{
  Text, String, not, List, [], ◌∷◌, Option, none, some, text_eq, ◌==◌, length,
}
use open_log_tool_server.Base.Json.{Json, Fields, get, keys}
use open_log_tool_server.Base.Runtime.{Runtime}
use open_log_tool_server.Base.Outcome.{
  Result, ok, err, app_error, validation_failed, ◌>>=◌, ◌>>◌, require,
}
use open_log_tool_server.Validation.{
  require_json_object, reject_unknown_keys, require_string, between, nullable_text,
  normalize_stable_id,
}
use open_log_tool_server.Validation.Timestamp.{validate_timestamp}
use open_log_tool_server.Collaboration.Rows.{LogValue}

-- LOG_PATCH_KEYS.
abbrev pub log_patch_keys : List String
log_patch_keys =
    "time" ∷ "controller" ∷ "callsign" ∷ "rstSent" ∷ "rstRcvd" ∷ "qth" ∷ "device" ∷ "power"
    ∷ "antenna" ∷ "height" ∷ "remarks" ∷ []

-- LOG_VALUE_KEYS.
abbrev pub log_value_keys : List String
log_value_keys = "syncId" ∷ "sessionId" ∷ log_patch_keys

-- `requireJsonObject` of a property that may be absent.
abbrev pub object_of : Option Json → Result Fields
object_of none = err (app_error 422 validation_failed)
object_of (some json) = require_json_object json

-- An identity in the value, where it is given, is the one of the request.
unfoldable pub check_identity : Option Json → Text → Result (Unit {0})
check_identity none expected = ok tt
check_identity (some raw) expected = do
  id ← normalize_stable_id (some raw)
  require (text_eq id expected) 422 validation_failed

-- Partial<CanonicalLogValue>; the outer `none` is a property that is absent.
pub record LogPatch : Type 0 where
  pub time : Option Text
  pub controller : Option Text
  pub callsign : Option Text
  pub rst_sent : Option (Option Text)
  pub rst_rcvd : Option (Option Text)
  pub qth : Option (Option Text)
  pub device : Option (Option Text)
  pub power : Option (Option Text)
  pub antenna : Option (Option Text)
  pub height : Option (Option Text)
  pub remarks : Option (Option Text)

-- The property's value, if the property is there.
abbrev pub if_present : {A : Type 0} → Fields → String → Result A → Result (Option A)
if_present value key read = elim (get key value) [
  | none ↦ ok none
  | some _ ↦ do a ← read; ok (some a)
]

module _ (runtime : Runtime) where
  unfoldable pub time_of : Fields → Result Text
  time_of value = do
    text ← require_string value "time" (between 1 64)
    validate_timestamp runtime text

  -- `controller` and `callsign`.
  unfoldable pub name_of : Fields → String → Result Text
  name_of value key = do
    text ← require_string value key (between 1 32)
    ok (runtime.to_upper_case text)

  unfoldable pub canonical_log_value : Option Json → Text → Text → Result LogValue
  unfolding check_identity time_of name_of
  canonical_log_value raw session_id sync_id = do
    value ← object_of raw
    reject_unknown_keys value log_value_keys
    check_identity (get "syncId" value) sync_id
    check_identity (get "sessionId" value) session_id
    time ← time_of value
    controller ← name_of value "controller"
    callsign ← name_of value "callsign"
    rst_sent ← nullable_text value "rstSent" 16
    rst_rcvd ← nullable_text value "rstRcvd" 16
    qth ← nullable_text value "qth" 200
    device ← nullable_text value "device" 200
    power ← nullable_text value "power" 64
    antenna ← nullable_text value "antenna" 200
    height ← nullable_text value "height" 64
    remarks ← nullable_text value "remarks" 2000
    ok (record {
      time = time;
      controller = controller;
      callsign = callsign;
      rst_sent = rst_sent;
      rst_rcvd = rst_rcvd;
      qth = qth;
      device = device;
      power = power;
      antenna = antenna;
      height = height;
      remarks = remarks;
    })

  unfoldable pub canonical_log_patch : Option Json → Result LogPatch
  unfolding time_of name_of
  canonical_log_patch raw = do
    patch ← object_of raw
    reject_unknown_keys patch log_patch_keys
    require (not (length (keys patch) == 0)) 422 validation_failed
    time ← if_present patch "time" (time_of patch)
    controller ← if_present patch "controller" (name_of patch "controller")
    callsign ← if_present patch "callsign" (name_of patch "callsign")
    rst_sent ← if_present patch "rstSent" (nullable_text patch "rstSent" 16)
    rst_rcvd ← if_present patch "rstRcvd" (nullable_text patch "rstRcvd" 16)
    qth ← if_present patch "qth" (nullable_text patch "qth" 200)
    device ← if_present patch "device" (nullable_text patch "device" 200)
    power ← if_present patch "power" (nullable_text patch "power" 64)
    antenna ← if_present patch "antenna" (nullable_text patch "antenna" 200)
    height ← if_present patch "height" (nullable_text patch "height" 64)
    remarks ← if_present patch "remarks" (nullable_text patch "remarks" 2000)
    ok (record {
      time = time;
      controller = controller;
      callsign = callsign;
      rst_sent = rst_sent;
      rst_rcvd = rst_rcvd;
      qth = qth;
      device = device;
      power = power;
      antenna = antenna;
      height = height;
      remarks = remarks;
    })

abbrev pub patched : {A : Type 0} → Option A → A → A
patched none old = old
patched (some new) old = new

-- The assignments of the UPDATE that `mutateLog` builds from a patch.
unfoldable pub apply_patch : LogPatch → LogValue → LogValue
apply_patch patch old = record {
  time = patched patch.time old.time;
  controller = patched patch.controller old.controller;
  callsign = patched patch.callsign old.callsign;
  rst_sent = patched patch.rst_sent old.rst_sent;
  rst_rcvd = patched patch.rst_rcvd old.rst_rcvd;
  qth = patched patch.qth old.qth;
  device = patched patch.device old.device;
  power = patched patch.power old.power;
  antenna = patched patch.antenna old.antenna;
  height = patched patch.height old.height;
  remarks = patched patch.remarks old.remarks;
}
