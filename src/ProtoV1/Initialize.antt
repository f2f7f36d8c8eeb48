-- ===== src/ProtoV1/Initialize.antt =====
-- proto/protov1/session_initialize.go, handler.go: the request session.initialize, which NewClientHandler
-- makes of its configuration, its JSON, and that of the response.
use rtvbp_go.Common.{◌≡◌, refl, List, [], ◌∷◌, Option, none, some}
use rtvbp_go.Common.Int.{ℤ}
use rtvbp_go.Common.Assoc.{Assoc}
use rtvbp_go.Proto.Json.{
  Json, null, str, arr, obj, Items, nil, item, Fields, end, field, find, string_field,
}
use rtvbp_go.Proto.Message.{Any, plain}
use rtvbp_go.ProtoV1.Requests.{
  AudioCodec, CallInfo, AppInfo, SessionInitializeRequest, SessionInitializeResponse, new_l16_codec,
}
use rtvbp_go.ProtoV1.Client.Wire.{
  ◌>>?◌, read_object, codec_of, codec_json, fields_of, entries, initialized_of,
}

-- The fields of ClientHandlerConfig that the handler sends; PingInterval is the pinger's.
pub record ClientHandlerConfig : Type 0 where
  pub call : CallInfo
  pub app : AppInfo
  pub metadata : Option (Assoc Json)
  pub ping_interval : ℤ
  pub sample_rate : ℤ

-- The SessionInitializeRequest in OnBegin of NewClientHandler
unfoldable pub offer : ClientHandlerConfig → SessionInitializeRequest
unfolding new_l16_codec
offer config = record {
  app_info = config.app;
  call_info = config.call;
  audio_codec_offerings = some (new_l16_codec config.sample_rate ∷ []);
  metadata = config.metadata;
}

abbrev pub codec_items : List AudioCodec → Items
codec_items [] = nil
codec_items (c ∷ cs) = item (codec_json (some c)) (codec_items cs)

abbrev offerings_json : Option (List AudioCodec) → Json
offerings_json none = null
offerings_json (some cs) = arr (codec_items cs)

abbrev metadata_json : Option (Assoc Json) → Json
metadata_json none = null
metadata_json (some m) = obj (fields_of m)

abbrev call_json : CallInfo → Json
call_json c = obj (
    field "id" (str c.id) (
      field "session_id" (str c.session_id)
        (field "from" (str c.from) (field "to" (str c.to) end))))

abbrev pub initialize_json : SessionInitializeRequest → Json
initialize_json r = obj (
    field "application" (obj (field "id" (str r.app_info.id) end)) (
      field "call" (call_json r.call_info) (
        field "audio_codec_offerings" (offerings_json r.audio_codec_offerings)
          (field "metadata" (metadata_json r.metadata) end))))

-- SessionInitializeRequest
abbrev pub initialize_any : SessionInitializeRequest → Any
initialize_any r = plain (some (initialize_json r))

-- SessionInitializeResponse
abbrev pub initialized_any : SessionInitializeResponse → Any
initialized_any r = plain (some (obj (field "audio_codec" (codec_json r.audio_codec) end)))

-- A field that holds a struct.
abbrev struct_field : {A : Type 0} → (Fields → Option A) → Option Json → Option A
struct_field f none = f end
struct_field f (some j) = read_object f j

-- An element `null` is the zero value.
unfoldable pub codecs_of : Items → Option (List AudioCodec)
unfolding codec_of
codecs_of nil = some []
codecs_of (item j js) =
    let rest = codecs_of js in read_object codec_of j >>? λ c. rest >>? λ cs. some (c ∷ cs)

abbrev offerings_field : Option Json → Option (Option (List AudioCodec))
unfolding codecs_of
offerings_field none = some none
offerings_field (some null) = some none
offerings_field (some (arr js)) = codecs_of js >>? λ cs. some (some cs)
offerings_field (some _) = none

abbrev metadata_field : Option Json → Option (Option (Assoc Json))
unfolding entries
metadata_field none = some none
metadata_field (some null) = some none
metadata_field (some (obj fs)) = some (some (entries fs []))
metadata_field (some _) = none

unfoldable app_of : Fields → Option AppInfo
unfolding find
app_of fs = string_field (find "id" fs) >>? λ i. some (record { id = i })

unfoldable call_of : Fields → Option CallInfo
unfolding find
call_of fs = string_field (find "id" fs) >>? λ i. string_field (find "session_id" fs) >>? λ s.
    string_field (find "from" fs) >>? λ f.
    string_field (find "to" fs) >>? λ t. some (record { id = i; session_id = s; from = f; to = t })

unfoldable pub initialize_of : Fields → Option SessionInitializeRequest
unfolding find app_of call_of offerings_field metadata_field
initialize_of fs = struct_field app_of (find "application" fs) >>? λ a.
    struct_field call_of (find "call" fs) >>? λ c.
    offerings_field (find "audio_codec_offerings" fs) >>? λ o.
    metadata_field (find "metadata" fs) >>? λ m.
    some (record { app_info = a; call_info = c; audio_codec_offerings = o; metadata = m })

-- json.Unmarshal into a SessionInitializeRequest
abbrev pub read_initialize : Json → Option SessionInitializeRequest
unfolding initialize_of
read_initialize = read_object initialize_of

codecs_of-items : (cs : List AudioCodec) → codecs_of (codec_items cs) ≡ some cs
unfolding codecs_of codec_of find
codecs_of-items [] = refl
codecs_of-items (c ∷ cs) = rw (codecs_of-items cs) refl

-- The metadata as they are read: of a key that stands twice, the last value.
abbrev pub read_metadata : Option (Assoc Json) → Option (Assoc Json)
unfolding entries
read_metadata none = none
read_metadata (some m) = some (entries (fields_of m) [])

read-parts :
    (a : AppInfo) (c : CallInfo) (o : Option (List AudioCodec)) (m : Option (Assoc Json))
    → let r : SessionInitializeRequest = record {
      app_info = a;
      call_info = c;
      audio_codec_offerings = o;
      metadata = m;
    } in
      read_initialize (initialize_json r) ≡ some (record r { metadata = read_metadata m })
unfolding initialize_of find app_of call_of
read-parts a c none none = refl
read-parts a c none (some m) = refl
read-parts a c (some cs) none = rw (codecs_of-items cs) refl
read-parts a c (some cs) (some m) = rw (codecs_of-items cs) refl

-- What the peer reads of a session.initialize request: everything, but of a metadata key that stands
-- twice the last value alone.
pub read-initialize_json :
    (r : SessionInitializeRequest)
    → read_initialize (initialize_json r) ≡ some (record r { metadata = read_metadata r.metadata })
read-initialize_json r = read-parts r.app_info r.call_info r.audio_codec_offerings r.metadata

read-codec :
    (o : Option AudioCodec)
    → initialized_of (field "audio_codec" (codec_json o) end) ≡ some (record { audio_codec = o })
unfolding initialized_of find codec_of
read-codec none = refl
read-codec (some c) = refl

-- What the client reads of the response.
pub initialized_of-json :
    (r : SessionInitializeResponse)
    → initialized_of (field "audio_codec" (codec_json r.audio_codec) end) ≡ some r
initialized_of-json r = read-codec r.audio_codec
