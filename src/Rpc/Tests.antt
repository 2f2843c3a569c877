-- ===== src/Rpc/Tests.antt =====
-- The theorems on clients and services at concrete inputs.
use rmw_gurumdds.Base.{
  ℕ, ◌+◌, ◌%◌, ◌^◌, ◌≡◌, refl, ◌∙◌, true, false, [], ◌∷◌, ◌++◌, map, Option, some, ok, arith,
}
use rmw_gurumdds.Base.Int.{pos}
use rmw_gurumdds.Cdr.Memory.{Endian, big, little}
use rmw_gurumdds.Cdr.Buffer.{align_up}
use rmw_gurumdds.Message.Types.{Fields, no_fields, fields, cons, nil, flag, count}
use rmw_gurumdds.Message.Typing.{HasType, members_end}
use rmw_gurumdds.Message.Convert.Size.{message_size}
use rmw_gurumdds.Message.Convert.Roundtrip.{Delivered, delivered}
use rmw_gurumdds.Event.Converter.{ret_ok, ret_error, dds_ok}
use rmw_gurumdds.Service.{ServiceMembers}
use rmw_gurumdds.Service.Numbers.{ros_sn_to_dds_sn}
use rmw_gurumdds.Service.Enhanced.{enhanced_is_plain}
use rmw_gurumdds.Service.Tests.{guid_1_to_16, guid_1_to_16-IsGuid}
use rmw_gurumdds.Rpc.{Dds, with_sampleinfoex, DdsTime, Sample, sample as received}
use rmw_gurumdds.Rpc.Samples.{ros_guid_to_dds_guid, header_for}
use rmw_gurumdds.Rpc.Client.{
  rmw_send_request, rmw_take_response, response_enhanced, send_stops, take_stops, client_of,
}
use rmw_gurumdds.Rpc.Server.{RequestId, rmw_take_request, rmw_send_response}
use rmw_gurumdds.Rpc.Loop.{not_valid, taken_as}
use rmw_gurumdds.Rpc.Refused.{basic_client, rmw_send_request-basic}
use rmw_gurumdds.Rpc.Exchange.{
  Carries, enhanced_client, enhanced_service, service_type, reading, exchange,
}
use rmw_gurumdds.Rpc.Absent.{ready_client, rmw_take_response-nothing}
use rmw_gurumdds.Tests.{
  sample_type, sample, at_most_100, empty_memory, sample-HasType, sample_size, flag_type,
  block_at_1000,
}

-- A response of one flag.
abbrev answer : Fields
answer = fields (cons (flag true) nil) no_fields

answer-HasType : (from to : Endian) → HasType from to at_most_100 flag_type answer
unfolding HasType count
answer-HasType from to = (tt, (omega arith, refl), (tt, tt), tt)

answer_size : message_size flag_type answer ≡ 8
unfolding members_end count align_up
answer_size = refl

-- DDS accepts all that is written.
abbrev willing : Dds
willing = record {
  malloc = block_at_1000;
  raw_write = λ m p n. dds_ok;
  write_w_sampleinfoex = λ m q g. dds_ok;
}

abbrev type_ : ServiceMembers
type_ = service_type sample_type flag_type

same_type-HasType : HasType big big at_most_100 flag_type answer
same_type-HasType = answer-HasType big big

rmw_send_request-basic_example :
    rmw_send_request willing big empty_memory
      (client_of (basic_client (service_type flag_type flag_type) 6 guid_1_to_16 true))
      (some answer)
      true
    ≡ ok (
        send_stops ret_error (
          client_of
            (basic_client (service_type flag_type flag_type) ((6 + 1) % 2 ^ 64) guid_1_to_16 true)))
rmw_send_request-basic_example =
    rmw_send_request-basic willing big at_most_100 empty_memory flag_type answer same_type-HasType
      (omega (arith, answer_size)) (service_type flag_type flag_type) 1000 refl 6 guid_1_to_16 true
      refl guid_1_to_16-IsGuid

abbrev id_7 : RequestId
id_7 = record { sequence_number = 7; writer_guid = guid_1_to_16 }

-- The request, written by a big-endian client, and the response, by a little-endian service.
request_delivered : Delivered big little at_most_100 sample_type sample empty_memory 100 40
request_delivered =
    delivered big little at_most_100 sample_type sample sample-HasType empty_memory 100 40
      (omega (arith, sample_size)) (omega arith)

answer_delivered : Delivered little big at_most_100 flag_type answer empty_memory 100 40
answer_delivered =
    delivered little big at_most_100 flag_type answer (answer-HasType little big) empty_memory 100
      40 (omega (arith, answer_size)) (omega arith)

abbrev noon : DdsTime
noon = record { sec = pos 43200; nanosec = 5 }

abbrev seq_7 : ℕ
seq_7 = ros_sn_to_dds_sn 7

abbrev carried : Sample
carried = record {
  valid_data = true;
  data_ = some 100;
  size = 40;
  source_timestamp = noon;
  reception_timestamp = noon;
  seq = ros_sn_to_dds_sn (6 + 1);
  src_guid = ros_guid_to_dds_guid guid_1_to_16;
}

abbrev disposed : Sample
disposed = record carried { valid_data = false }

Carries-request :
    Carries big sample_type sample
      (ros_sn_to_dds_sn (6 + 1))
      (ros_guid_to_dds_guid guid_1_to_16)
      request_delivered.out
      carried
Carries-request = record {
  valid = refl;
  address = 100;
  at_ = refl;
  small = omega arith;
  numbered = refl;
  identified = refl;
  copy_ = record {
    before = empty_memory;
    buffer = 100;
    after = request_delivered.out;
    wrote =
        (enhanced_is_plain big at_most_100 empty_memory (some sample_type) sample (some 100) 100
          40).0
        ∙ request_delivered.returns;
    same = λ x h. refl;
  };
}

Carries-answer :
    Carries little flag_type answer
      (ros_sn_to_dds_sn (6 + 1))
      (ros_guid_to_dds_guid guid_1_to_16)
      answer_delivered.out
      carried
Carries-answer = record {
  valid = refl;
  address = 100;
  at_ = refl;
  small = omega arith;
  numbered = refl;
  identified = refl;
  copy_ = record {
    before = empty_memory;
    buffer = 100;
    after = answer_delivered.out;
    wrote =
        (enhanced_is_plain little at_most_100 empty_memory (some flag_type) answer (some 100) 100
          40).0
        ∙ answer_delivered.returns;
    same = λ x h. refl;
  };
}

-- The client has sent 9 requests by now, and a disposed sample comes first.
exchange_example :
    (rmw_send_request willing big answer_delivered.out
        (client_of (enhanced_client type_ 6 guid_1_to_16))
        (some sample)
        true
      ≡ ok (record {
        ret = ret_ok;
        client = client_of (enhanced_client type_ (6 + 1) guid_1_to_16);
        sequence_id = some (6 + 1);
        sent = some (
            with_sampleinfoex sample
              (ros_sn_to_dds_sn (6 + 1))
              (ros_guid_to_dds_guid guid_1_to_16));
      }))
    × (rmw_take_request little at_most_100 request_delivered.out true
          (enhanced_service type_)
          (true, true, true)
          (received carried ∷ [])
        ≡ ok (record {
          ret = ret_ok;
          taken = some true;
          header = some (header_for carried (reading (6 + 1) guid_1_to_16 sample));
          message = some sample;
          rest = [];
        }))
    × (rmw_send_response willing little request_delivered.out
          (enhanced_service type_)
          (some (record { sequence_number = 6 + 1; writer_guid = guid_1_to_16 }))
          (some answer)
        ≡ ok (record {
          ret = ret_ok;
          sent = some (
              with_sampleinfoex answer
                (ros_sn_to_dds_sn (6 + 1))
                (ros_guid_to_dds_guid guid_1_to_16));
        }))
    × (rmw_take_response big at_most_100 answer_delivered.out true
          (client_of (enhanced_client type_ 9 guid_1_to_16))
          (true, true, true)
          (map received (disposed ∷ []) ++ received carried ∷ [])
        ≡ ok (
            taken_as
              (response_enhanced big at_most_100 answer_delivered.out (some type_))
              guid_1_to_16
              carried
              (reading (6 + 1) guid_1_to_16 answer)
              []))
exchange_example =
    exchange big little at_most_100 willing (λ m q g. refl) sample_type flag_type sample answer
      sample-HasType (answer-HasType little big) answer_delivered.out request_delivered.out 6
      guid_1_to_16 (omega arith) refl carried Carries-request carried Carries-answer (disposed ∷ [])
      (not_valid refl, tt) 9 [] []

rmw_take_response-nothing_example :
    (m : Option Fields) × (rmw_take_response big at_most_100 empty_memory true
        (client_of (ready_client true type_ 9 guid_1_to_16))
        (true, true, true)
        (map received (disposed ∷ disposed ∷ []))
      ≡ ok (take_stops ret_ok (some false) m []))
rmw_take_response-nothing_example =
    rmw_take_response-nothing big at_most_100 empty_memory true type_ 9 guid_1_to_16
      (disposed ∷ disposed ∷ []) (not_valid refl, (not_valid refl, tt))
