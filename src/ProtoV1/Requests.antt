-- ===== src/ProtoV1/Requests.antt =====
-- proto/protov1: the requests that say only a name, a few texts and what makes them valid
-- (call.go, recording.go, session_terminate.go, app.go, session_initialize.go, session_variables.go, audio.go).
-- A method by pointer is given at the value that the pointer points to.
use Prim.Native.String.{◌++◌ as cat}
use rtvbp_go.Common.{String, List, Option, if◌then◌else◌}
use rtvbp_go.Common.Int.{ℤ, pos, eqb_ℤ}
use rtvbp_go.Proto.Errors.{Error, decimal}
use rtvbp_go.Common.Assoc.{Assoc}
use rtvbp_go.Proto.Json.{Json}
use rtvbp_go.Proto.Message.{required}

pub record CallHangupEvent : Type 0 where
  pub reason : String

pub record CallHangupRequest : Type 0 where
  pub reason : String

-- CallHangupRequest.Validate
unfoldable pub validate_hangup : CallHangupRequest → Option Error
validate_hangup r = required r.reason "call.hangup request reason is required"

pub record RecordingStartRequest : Type 0 where
  pub tags : List String

pub record RecordingStartResponse : Type 0 where
  pub id : String

-- RecordingStartResponse.Validate
unfoldable pub validate_recording_started : RecordingStartResponse → Option Error
validate_recording_started r = required r.id "recording.start response ID is required"

pub record RecordingStopRequest : Type 0 where
  pub id : String

-- RecordingStopRequest.Validate
unfoldable pub validate_recording_stop : RecordingStopRequest → Option Error
validate_recording_stop r = required r.id "recording.stop request ID is required"

pub record SessionTerminateRequest : Type 0 where
  pub reason : String

-- SessionTerminateRequest.Validate
unfoldable pub validate_terminate : SessionTerminateRequest → Option Error
validate_terminate r = required r.reason "session.terminate request reason is required"

pub record ApplicationMoveRequest : Type 0 where
  pub reason : String
  pub application_id : String

pub record ApplicationMoveResponse : Type 0 where
  pub next_application_id : String

pub record AudioCodec : Type 0 where
  pub id : String
  pub name : String
  pub sample_rate : ℤ
  pub bit_depth : ℤ
  pub channels : ℤ

-- newL16Codec
unfoldable pub new_l16_codec : ℤ → AudioCodec
unfolding decimal
new_l16_codec sr =
    let sr' = if eqb_ℤ sr (pos 0) then pos 8000 else sr in
    record {
      id = cat "L16/" (cat (decimal sr') "/1");
      name = "L16";
      sample_rate = sr';
      bit_depth = pos 16;
      channels = pos 1;
    }

pub record SessionGetRequest : Type 0 where
  pub keys : List String

pub record SessionSetRequest : Type 0 where
  pub data_map : Assoc Json

-- `none` is the nil pointer.
pub record SessionInitializeResponse : Type 0 where
  pub audio_codec : Option AudioCodec

pub record AudioSpeechStartedEvent : Type 0 where
  pub origin : String

pub record CallInfo : Type 0 where
  pub id : String
  pub session_id : String
  pub from : String
  pub to : String

pub record AppInfo : Type 0 where
  pub id : String

-- A slice or a map that is nil is `none`.
pub record SessionInitializeRequest : Type 0 where
  pub app_info : AppInfo
  pub call_info : CallInfo
  pub audio_codec_offerings : Option (List AudioCodec)
  pub metadata : Option (Assoc Json)
