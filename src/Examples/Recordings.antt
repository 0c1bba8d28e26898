-- ===== src/Examples/Recordings.antt =====
-- Recordings.
use agenttender.Common.{length, drop, ◌≤◌}
use agenttender.Common.Words.{word32}
use agenttender.Recording.Format.{prefix_len, body_fixed_len, body_max_len, crc_len}
use agenttender.Recording.Checksum.{decode_round-checksum}
use agenttender.Recording.Decoder.{decode_round}
use agenttender.Common.{
  ℕ, ◌+◌, ◌%◌, ◌≡◌, refl, arith, [], ◌∷◌, ◌++◌, true, none, some, Result, ok, Bytes, codes, take,
}
use agenttender.Common.Words.{IsU32}
use agenttender.Recording.Format.{Record, output, resized, user, SegmentHeader, all_term_bytes}
use agenttender.Recording.Encoder.{
  SegmentEncoder, new, encode, next_segment, header_bytes, record_body, sealed,
}
use agenttender.Recording.Decoded.{DecodedRecording, DecodeError, clean, truncated}
use agenttender.Recording.Segment.{
  decode_segment, Continuity, previous_elapsed, check_header_continuity, initial_summary,
}
use agenttender.Recording.Decoder.{decode_body}
use agenttender.Recording.Join.{decode_recording}
use agenttender.Recording.Total.Recordings.{decode_recording_total}
use agenttender.Recording.Order.Recordings.{IsOrdered, decode_recording-IsOrdered}
use agenttender.Recording.Order.Segments.{summary_of}
use agenttender.Recording.RoundTrip.Headers.{IsHeader}
use agenttender.Recording.RoundTrip.Records.{IsRecord}
use agenttender.Recording.RoundTrip.Loops.{Encodes, nothing, one_more}
use agenttender.Recording.RoundTrip.Segments.{decode_segment-cut}
use agenttender.Recording.RoundTrip.Rotation.{Starts, next_segment-continues}

-- A checksum, and a version of every UUID.
abbrev sum : Bytes → ℕ
sum [] = 0
sum (b ∷ bs) = (b + sum bs) % 4294967296

sum-IsU32 : (bs : Bytes) → IsU32 (sum bs)
sum-IsU32 [] = omega arith
sum-IsU32 (b ∷ bs) = omega arith

abbrev seven : Bytes → ℕ
seven bs = 7

abbrev header : SegmentHeader
header = record {
  run_id = record { uuid = codes "0123456789abcdef" };
  segment_index = 0;
  first_sequence = 1;
  origin_unix_ns = 1700000000000000000;
  geometry = record { rows = 24; cols = 80 };
  input_recorded = true;
  term = codes "xterm";
}

abbrev hello : Record
hello = record { sequence = 1; elapsed_ns = 5; kind = output (codes "hi") }

abbrev smaller : Record
smaller = record {
  sequence = 2;
  elapsed_ns = 9;
  kind = resized (record { rows = 20; cols = 60 }) user;
}

abbrev start : SegmentEncoder
start = record {
  header = header;
  next_sequence = some 1;
  last_elapsed_ns = none;
  geometry = header.geometry;
  records = 0;
}

abbrev hello_bytes : Bytes
hello_bytes = sealed sum (record_body 1 hello (codes "hi"))

abbrev smaller_bytes : Bytes
smaller_bytes = sealed sum (record_body 2 smaller (0 ∷ 20 ∷ 0 ∷ 60 ∷ 1 ∷ 0 ∷ 0 ∷ 0 ∷ 0 ∷ []))

header-IsHeader : IsHeader seven header
header-IsHeader = record {
  uuid_len = refl;
  version = refl;
  index_range = omega arith;
  sequence_range = omega arith;
  sequence_pos = omega arith;
  first = refl;
  origin_range = omega arith;
  geometry_range = record {
    rows_range = omega arith;
    cols_range = omega arith;
    rows_pos = omega arith;
    cols_pos = omega arith;
  };
  term_len = omega arith;
  term_bytes = unfold all_term_bytes in refl;
}

hello-IsRecord : IsRecord hello
hello-IsRecord = record {
  sequence_range = omega arith;
  elapsed_range = omega arith;
  kind_range = tt;
}

smaller-IsRecord : IsRecord smaller
smaller-IsRecord = record {
  sequence_range = omega arith;
  elapsed_range = omega arith;
  kind_range = record {
    rows_range = omega arith;
    cols_range = omega arith;
    rows_pos = omega arith;
    cols_pos = omega arith;
  };
}

start-new : new header ≡ ok start
start-new = unfold new in refl

abbrev after_hello : SegmentEncoder
after_hello = record start { next_sequence = some 2; last_elapsed_ns = some 5; records = 1 }

hello-encode : encode sum hello start ≡ (after_hello, ok hello_bytes)
hello-encode = unfold encode in refl

abbrev after_smaller : SegmentEncoder
after_smaller = record after_hello {
  next_sequence = some 3;
  last_elapsed_ns = some 9;
  geometry = record { rows = 20; cols = 60 };
  records = 2;
}

smaller-encode : encode sum smaller after_hello ≡ (after_smaller, ok smaller_bytes)
smaller-encode = unfold encode in refl

one-Encodes : Encodes sum start (hello ∷ []) after_hello (hello_bytes ++ [])
one-Encodes =
    one_more start after_hello after_hello hello [] hello_bytes [] hello-encode
      (nothing after_hello)

decode_segment-cut_example :
    decode_segment sum seven (header_bytes sum start ++ (hello_bytes ++ take 10 smaller_bytes))
    ≡ some (ok (record { header = header; records = hello ∷ []; end = truncated 96 }))
unfolding record_body
decode_segment-cut_example =
    decode_segment-cut sum seven sum-IsU32 header header-IsHeader start after_hello after_smaller
      (hello ∷ []) hello_bytes smaller smaller_bytes 10 start-new one-Encodes (hello-IsRecord, tt)
      smaller-encode smaller-IsRecord (omega arith)

abbrev segment : Bytes
segment = header_bytes sum start ++ hello_bytes

abbrev recording : DecodedRecording
recording = record { header = header; segment_count = 1; records = hello ∷ []; end = clean }

segment-decode_recording : decode_recording sum seven (segment ∷ []) ≡ some (ok recording)
unfolding decode_recording decode_body header_bytes record_body
segment-decode_recording = refl

decode_recording-IsOrdered_example : IsOrdered recording
decode_recording-IsOrdered_example =
    decode_recording-IsOrdered sum seven (segment ∷ []) recording segment-decode_recording

decode_recording_total_example :
    (r : Result DecodeError DecodedRecording) × (decode_recording sum seven (segment ∷ segment ∷ [])
      ≡ some r)
decode_recording_total_example = decode_recording_total sum seven (segment ∷ segment ∷ [])

abbrev second : SegmentEncoder
second = record after_hello {
  header = record header { segment_index = 1; first_sequence = 2 };
  records = 0;
}

next_segment-continues_example :
    let c : Continuity = record {
      position = 1;
      previous = some (header, summary_of (initial_summary header 65) (hello ∷ []));
    } in
    (check_header_continuity second.header c ≡ none)
    × (second.last_elapsed_ns ≡ previous_elapsed (some c))
next_segment-continues_example =
    next_segment-continues sum header header start after_hello second (hello ∷ [])
      (hello_bytes ++ []) 65 (Starts.first_segment header start start-new) one-Encodes
      (record { run_id = refl; origin = refl; input = refl; term = refl })
      (unfold next_segment in refl)

decode_round-checksum_example :
    (31 ≤ length hello_bytes)
    × (prefix_len + body_fixed_len + crc_len ≤ 31)
    × (31 ≤ prefix_len + body_max_len + crc_len)
    × (sum (take 27 hello_bytes) ≡ word32 (drop 27 hello_bytes))
decode_round-checksum_example =
    decode_round-checksum sum header (initial_summary header 65) 65 hello_bytes hello 31
      (unfold decode_round decode_body record_body initial_summary in refl)
