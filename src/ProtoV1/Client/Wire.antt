-- ===== src/ProtoV1/Client/Wire.antt =====
-- proto/protov1: the JSON of the payload types, from their struct tags. The text `null` and a missing
-- key leave a field as it is.
use Prim.Native.String.{String}
use rtvbp_go.Common.{ℕ, List, [], ◌∷◌, Option, none, some, is_empty, if◌then◌else◌}
use rtvbp_go.Common.Int.{pos}
use rtvbp_go.Common.Assoc.{Assoc, insert}
use rtvbp_go.Proto.Json.{
  Json, null, num, str, arr, obj, Items, nil, item, Fields, end, field, find, omit, string_field,
  int_field,
}
use rtvbp_go.Proto.Errors.{Error}
use rtvbp_go.Proto.Message.{Any, plain, valid, invalid}
use rtvbp_go.ProtoV1.Requests.{
  CallHangupEvent, AudioSpeechStartedEvent, CallHangupRequest, ApplicationMoveRequest,
  ApplicationMoveResponse, RecordingStartRequest, RecordingStartResponse, RecordingStopRequest,
  SessionTerminateRequest, SessionSetRequest, SessionGetRequest, SessionInitializeResponse,
  AudioCodec, validate_terminate, validate_recording_started,
}
use rtvbp_go.ProtoV1.Dtmf.{DtmfEvent, validate_dtmf}

infixl 5 ◌>>?◌
abbrev pub ◌>>?◌ : {A B : Type 0} → Option A → (A → Option B) → Option B
none >>? f = none
some a >>? f = f a

-- A value that json reads from an object, or from `null` as from an empty one.
abbrev pub read_object : {A : Type 0} → (Fields → Option A) → Json → Option A
read_object f (obj fs) = f fs
read_object f null = f end
read_object f _ = none

pub hangup_of : Fields → Option CallHangupRequest
unfolding find
hangup_of fs = string_field (find "reason" fs) >>? λ r. some (record { reason = r })

abbrev pub read_hangup : Json → Option CallHangupRequest
read_hangup = read_object hangup_of

pub terminate_of : Fields → Option SessionTerminateRequest
unfolding find
terminate_of fs = string_field (find "reason" fs) >>? λ r. some (record { reason = r })

abbrev pub read_terminate : Json → Option SessionTerminateRequest
read_terminate = read_object terminate_of

pub move_of : Fields → Option ApplicationMoveRequest
unfolding find
move_of fs = string_field (find "reason" fs) >>? λ r.
    string_field (find "application_id" fs) >>? λ a.
    some (record { reason = r; application_id = a })

abbrev pub read_move : Json → Option ApplicationMoveRequest
read_move = read_object move_of

pub recording_stop_of : Fields → Option RecordingStopRequest
unfolding find
recording_stop_of fs = string_field (find "id" fs) >>? λ i. some (record { id = i })

abbrev pub read_recording_stop : Json → Option RecordingStopRequest
read_recording_stop = read_object recording_stop_of

-- An element `null` of a list of strings is the empty string.
abbrev strings_of : Items → Option (List String)
strings_of nil = some []
strings_of (item j js) = string_field (some j) >>? λ s. strings_of js >>? λ rest. some (s ∷ rest)

abbrev strings_field : Option Json → Option (List String)
strings_field none = some []
strings_field (some null) = some []
strings_field (some (arr js)) = strings_of js
strings_field (some _) = none

pub recording_start_of : Fields → Option RecordingStartRequest
unfolding find
recording_start_of fs = strings_field (find "tags" fs) >>? λ t. some (record { tags = t })

abbrev pub read_recording_start : Json → Option RecordingStartRequest
read_recording_start = read_object recording_start_of

pub get_of : Fields → Option SessionGetRequest
unfolding find
get_of fs = strings_field (find "keys" fs) >>? λ k. some (record { keys = k })

abbrev pub read_get : Json → Option SessionGetRequest
read_get = read_object get_of

unfoldable pub entries : Fields → Assoc Json → Assoc Json
unfolding insert
entries end m = m
entries (field k v fs) m = entries fs (insert k v m)

abbrev map_field : Option Json → Option (Assoc Json)
unfolding entries
map_field none = some []
map_field (some null) = some []
map_field (some (obj fs)) = some (entries fs [])
map_field (some _) = none

pub set_of : Fields → Option SessionSetRequest
unfolding find map_field
set_of fs = map_field (find "data" fs) >>? λ m. some (record { data_map = m })

abbrev pub read_set : Json → Option SessionSetRequest
read_set = read_object set_of

-- AudioBufferClearRequest has no field.
abbrev pub read_clear : Json → Option (Unit {0})
read_clear = read_object (λ fs. some tt)

unfoldable pub codec_of : Fields → Option AudioCodec
unfolding find
codec_of fs = string_field (find "id" fs) >>? λ i. string_field (find "name" fs) >>? λ n.
    int_field (find "sample_rate" fs) >>? λ r. int_field (find "bit_depth" fs) >>? λ b.
    int_field (find "channels" fs) >>? λ c.
    some (record { id = i; name = n; sample_rate = r; bit_depth = b; channels = c })

-- A field of type *AudioCodec.
abbrev codec_field : Option Json → Option (Option AudioCodec)
unfolding codec_of
codec_field none = some none
codec_field (some null) = some none
codec_field (some (obj fs)) = codec_of fs >>? λ c. some (some c)
codec_field (some _) = none

unfoldable pub initialized_of : Fields → Option SessionInitializeResponse
unfolding find codec_field
initialized_of fs = codec_field (find "audio_codec" fs) >>? λ c. some (record { audio_codec = c })

abbrev pub read_initialized : Json → Option SessionInitializeResponse
read_initialized = read_object initialized_of

-- A value with a method Validate.
abbrev as_any : Option Error → Fields → Any
as_any none fs = valid (some (obj fs))
as_any (some e) fs = invalid (some (obj fs)) e

-- A text tagged `omitempty`.
abbrev if_present : String → Option Json
if_present s = if is_empty s then none else some (str s)

-- EmptyResponse
abbrev pub empty_any : Any
empty_any = plain (some (obj end))

abbrev pub moved_any : ApplicationMoveResponse → Any
moved_any r = plain (some (obj (omit "next_application_id" (if_present r.next_application_id) end)))

abbrev pub started_any : RecordingStartResponse → Any
unfolding validate_recording_started
started_any r = as_any (validate_recording_started r) (field "id" (str r.id) end)

-- AudioBufferClearResponse
abbrev pub cleared_any : ℕ → Any
cleared_any n = plain (some (obj (field "len" (num (pos n)) end)))

pub fields_of : Assoc Json → Fields
fields_of [] = end
fields_of ((k, v) ∷ m) = field k v (fields_of m)

abbrev pub variables_any : Assoc Json → Any
variables_any m = plain (some (obj (fields_of m)))

abbrev pub terminate_any : SessionTerminateRequest → Any
unfolding validate_terminate
terminate_any r = as_any (validate_terminate r) (field "reason" (str r.reason) end)

abbrev pub codec_json : Option AudioCodec → Json
codec_json none = null
codec_json (some c) = obj (
    field "id" (str c.id) (
      field "name" (str c.name) (
        field "sample_rate" (num c.sample_rate)
          (field "bit_depth" (num c.bit_depth) (field "channels" (num c.channels) end)))))

-- SessionUpdatedEvent
abbrev pub updated_any : SessionInitializeResponse → Any
updated_any r = plain (some (obj (field "audio_codec" (codec_json r.audio_codec) end)))

-- CallHangupEvent
abbrev pub hung_up_any : CallHangupEvent → Any
hung_up_any e = plain (some (obj (omit "reason" (if_present e.reason) end)))

-- AudioSpeechStartedEvent
abbrev pub speech_started_any : AudioSpeechStartedEvent → Any
speech_started_any e = plain (some (obj (field "origin" (str e.origin) end)))

abbrev pub dtmf_any : DtmfEvent → Any
unfolding validate_dtmf
dtmf_any e = as_any (validate_dtmf e) (
    field "seq" (num e.seq) (
      field "pressed_at" (num e.pressed_at)
        (field "released_at" (num e.released_at) (field "digit" (str e.digit) end))))
