-- ===== src/Storage/Tokens.antt =====
-- page_token.go: `EncodePageToken` and `DecodePageToken`.
use bitstar.Base.{◌≡◌, ◌∙◌, ap, false, Bytes, [], Option, none, some, arith, Option-cases, inl, inr}
use bitstar.Keys.Defs.{Time, EventKey}

-- The protobuf `EventKey`, with its pointers.
pub record PbEventKey (Timestamp : Type 0) : Type 0 where
  pub resource : Option (Bytes × Bytes)
  pub start_time : Option Timestamp
  pub id : Bytes

-- What the tokens use of encoding/base64, of protobuf and of its timestamps: what was encoded is
-- decoded.
pub record Coding : Type 1 where
  pub Timestamp : Type 0
  pub encode_to_string : Bytes → Bytes
  pub decode_string : Bytes → Option Bytes
  pub marshal : PbEventKey Timestamp → Option Bytes
  pub unmarshal : Bytes → Option (PbEventKey Timestamp)
  pub new_timestamp : Time → Timestamp
  pub as_time : Option Timestamp → Time
  pub decode_string-encode_to_string : (b : Bytes) → decode_string (encode_to_string b) ≡ some b
  pub unmarshal-marshal :
      (k : PbEventKey Timestamp) (b : Bytes) → marshal k ≡ some b → unmarshal b ≡ some k
  pub as_time-new_timestamp : (t : Time) → as_time (some (new_timestamp t)) ≡ t

module _ (C : Coding) where
  -- The message that stands for a key.
  abbrev pb_event_key : EventKey → PbEventKey C.Timestamp
  pb_event_key key = record {
    resource = some (key.resource_type_code, key.resource_external_id);
    start_time = some (C.new_timestamp key.start_time);
    id = key.id;
  }

  -- `EncodePageToken`; `none` is an error.
  unfoldable encode_page_token : EventKey → Option Bytes
  encode_page_token key = elim (C.marshal (pb_event_key key)) [
    | none ↦ none
    | some bytes ↦ some (C.encode_to_string bytes)
  ]

  -- The key of a message; the getters of a nil pointer give empty strings.
  abbrev event_key_of : PbEventKey C.Timestamp → EventKey
  event_key_of pb = record {
    resource_type_code = elim pb.resource [ none ↦ [] | some r ↦ r.0 ];
    resource_external_id = elim pb.resource [ none ↦ [] | some r ↦ r.1 ];
    start_time = C.as_time pb.start_time;
    id = pb.id;
    timestamp = 0;
    is_deleted = false;
    local = false;
  }

  -- `DecodePageToken`; `none` is an error.
  unfoldable decode_page_token : Bytes → Option EventKey
  decode_page_token token = elim (C.decode_string token) [
    | none ↦ none
    | some bytes ↦ elim (C.unmarshal bytes) [ none ↦ none | some pb ↦ some (event_key_of pb) ]
  ]

  decode_steps :
      (token bytes : Bytes) (pb : PbEventKey C.Timestamp)
      → C.decode_string token ≡ some bytes
      → C.unmarshal bytes ≡ some pb
      → decode_page_token token ≡ some (event_key_of pb)
  unfolding decode_page_token
  decode_steps token bytes pb h k = ground (arith, h, k)

  -- A token gives back its key, without the timestamp and the mark of a deletion, in UTC.
  decode_page_token-encode_page_token :
      (key : EventKey) (token : Bytes)
      → encode_page_token key ≡ some token
      → decode_page_token token
        ≡ some (record key { timestamp = 0; is_deleted = false; local = false })
  unfolding encode_page_token
  decode_page_token-encode_page_token key token h =
      elim (Option-cases (C.marshal (pb_event_key key))) [
        | inl fails ↦ absurd (ground arith)
        | inr (bytes, made) ↦
            let same : C.encode_to_string bytes ≡ token = ground arith in
            let decoded = C.decode_string-encode_to_string bytes in
            let read = C.unmarshal-marshal (pb_event_key key) bytes made in
            let whole : decode_page_token (C.encode_to_string bytes)
                ≡ some (event_key_of (pb_event_key key)) =
              decode_steps (C.encode_to_string bytes) bytes (pb_event_key key) decoded read in
            rw (← same) (
              whole
              ∙ ap
                  (λ t. some (record key {
                    start_time = t;
                    timestamp = 0;
                    is_deleted = false;
                    local = false;
                  }))
                  (C.as_time-new_timestamp key.start_time))
      ]
