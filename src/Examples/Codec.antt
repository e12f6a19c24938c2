-- ===== src/Examples/Codec.antt =====
-- The theorems on internal/protocol at concrete values, steps, packs and buffers.
use native.Mathlib.Decide.{ℕ_discrete}
use scouter_server_go.Protocol.Fuel.Packs.{read_pack-ne-stuck}
use scouter_server_go.Common.{
  ◌<◌, ℕ, ◌≡◌, ◌+◌, ◌-◌, ◌≢◌, ◌≤◌, refl, false, List, [], ◌∷◌, ◌++◌, length, arith, ◌^◌, zero, suc,
}
use scouter_server_go.Protocol.Output.{
  DataOutputX, new_output, write, write_byte, write_int16, write_int32, write_array_int,
  write_decimal, write_blob, write_text, write_int64, ◌⨾◌, write_boolean, write_int3, write_long5,
}
use scouter_server_go.Protocol.Input.{
  DataInputX, ok, panic, stuck, new_input, new_input_offset, read_array_int, read_blob_ref,
  read_blob, read_created, ◌>>=◌, return, read_byte, read_decimal32, read_decimal,
  read_decimal_body, read_text, read_blob_body, read, read_bytes, advance,
}
use scouter_server_go.Protocol.Value.{
  Value, text_value, decimal_value, list_value, map_value, nil, no_values, value_and, no_entries,
  entry_and, write_value,
}
use scouter_server_go.Protocol.Value.Read.{read_value, read_map_value, read_entries, create_value}
use scouter_server_go.Protocol.Value.RoundTrip.{erase_nil, read_value-write_value}
use scouter_server_go.Protocol.Fuel.Values.{read_value-ne-stuck}
use scouter_server_go.Protocol.LongArrays.{read_array_int-write_array_int_panics}
use scouter_server_go.Protocol.BlobRef.{read_blob_ref-eq-read_blob}
use scouter_server_go.Protocol.Step.Union.{
  Step, method_step2, message_step, write_step, read_step, create_step,
}
use scouter_server_go.Protocol.Step.Base.{read_step_single}
use scouter_server_go.Protocol.Step.Message.{read_message_step}
use scouter_server_go.Protocol.Step.RoundTrip.{read_step-write_step}
use scouter_server_go.Protocol.Pack.Union.{xlog_pack, map_pack, write_pack, read_pack, create_pack}
use scouter_server_go.Protocol.Pack.Xlog.{XlogPack, write_xlog_head, write_xlog_tail}
use scouter_server_go.Protocol.Pack.XlogCodec.{IsXlogPack}
use scouter_server_go.Protocol.Pack.XlogFilter.{
  read_xlog_filter_fields, read_xlog_filter_fields-write_pack,
}
use scouter_server_go.Protocol.Pack.Wrapped.{inner_bytes}
use scouter_server_go.Protocol.Pack.Map.{
  key_discrete, read_map_pack, find_entry, map_put, map_get, map_size, map_get-map_put,
  map_size-map_put,
}
use scouter_server_go.Protocol.Pack.RoundTrip.{read_pack-write_pack}
use scouter_server_go.Protocol.Bounds.Packs.{read_pack_bounds}
use scouter_server_go.Protocol.Bounds.Steps.{read_step_bounds}

-- {"ids": [7, nil], "host": "ab"}
abbrev nested : Value
nested = map_value (
    entry_and (105 ∷ 100 ∷ 115 ∷ [])
      (list_value (value_and (decimal_value 7) (value_and nil no_values)))
      (entry_and (104 ∷ []) (text_value (97 ∷ 98 ∷ [])) no_entries))

-- A buffer that already holds three bytes.
abbrev started : DataOutputX
started = record { buf = 1 ∷ 2 ∷ 3 ∷ []; written = 3 }

read_value-write_value_example :
    read_value 3 (new_input_offset ((write_value nested started).buf ++ (9 ∷ [])) 3)
    ≡ ok (
      erase_nil nested,
      new_input_offset
          ((write_value nested started).buf ++ (9 ∷ []))
          (length (write_value nested started).buf),
    )
read_value-write_value_example =
    read_value-write_value nested 3 started (9 ∷ [])
      (
        omega arith,
        (omega arith, (omega arith, (omega arith, (tt, tt))), (omega arith, omega arith, tt)),
      )
      (omega arith)

-- A map that claims three entries and ends.
read_value-ne-stuck_example : read_value 3 (new_input (80 ∷ 3 ∷ [])) ≢ stuck
unfolding new_input
read_value-ne-stuck_example =
    read_value-ne-stuck 3 (new_input (80 ∷ 3 ∷ [])) (omega arith) (omega arith)

abbrev sample_step : Step
sample_step = method_step2 (record {
  base = record {
    single = record { parent = 2 ^ 32 - 1; index = 0; start_time = 300; start_cpu = 70000 };
    hash = 12;
    elapsed = 9;
    cpu_time = 0;
  };
  error = 0;
})

read_step-write_step_example :
    read_step (new_input_offset ((write_step sample_step started).buf ++ (9 ∷ [])) 3)
    ≡ ok (
      sample_step,
      new_input_offset
          ((write_step sample_step started).buf ++ (9 ∷ []))
          (length (write_step sample_step started).buf),
    )
read_step-write_step_example = read_step-write_step sample_step started (9 ∷ []) (record {
  single = record {
    parent = omega arith;
    index = omega arith;
    start_time = omega arith;
    start_cpu = omega arith;
  };
  hash = omega arith;
  elapsed = omega arith;
  cpu_time = omega arith;
  error = omega arith;
})

-- A pack of a serialized object hash 77 and an elapsed time of 1500 ms.
abbrev sample_xlog : XlogPack
sample_xlog = record {
  end_time = 1700000000000;
  obj_hash = 77;
  service = 0;
  txid = 2 ^ 63 + 5;
  caller = 0;
  gxid = 0;
  elapsed = 1500;
  error = 2 ^ 32 - 1;
  cpu = 0;
  sql_count = 0;
  sql_time = 0;
  ip_addr = 10 ∷ 0 ∷ 0 ∷ 1 ∷ [];
  kbytes = 0;
  status = 0;
  userid = 0;
  user_agent = 0;
  referer = 0;
  group = 0;
  apicall_count = 0;
  apicall_time = 0;
  country_code = [];
  city = 0;
  xtype = 0;
  login = 0;
  desc = 0;
  web_hash = 0;
  web_time = 0;
  has_dump = 0;
  thread_name_hash = 0;
  text1 = 120 ∷ [];
  text2 = [];
  queuing_host_hash = 0;
  queuing_time = 0;
  queuing2nd_host_hash = 0;
  queuing2nd_time = 0;
  text3 = [];
  text4 = [];
  text5 = [];
  profile_count = 0;
  b3_mode = false;
  profile_size = 0;
  discard_type = 0;
  ignore_global_consequent_sampling = false;
}

sample_xlog-IsXlogPack : IsXlogPack sample_xlog
unfolding inner_bytes write_xlog_head write_xlog_tail new_output write write_byte write_boolean
    write_int64 write_decimal write_blob write_text ◌⨾◌ write_int16 write_int32 write_int3
    write_long5
sample_xlog-IsXlogPack = record {
  head = record {
    end_time = omega arith;
    obj_hash = omega arith;
    service = omega arith;
    txid = omega arith;
    caller = omega arith;
    gxid = omega arith;
    elapsed = omega arith;
    error = omega arith;
    cpu = omega arith;
    sql_count = omega arith;
    sql_time = omega arith;
    ip_addr = omega arith;
    kbytes = omega arith;
    status = omega arith;
    userid = omega arith;
    user_agent = omega arith;
    referer = omega arith;
    group = omega arith;
    apicall_count = omega arith;
    apicall_time = omega arith;
  };
  tail = record {
    country_code = omega arith;
    city = omega arith;
    login = omega arith;
    desc = omega arith;
    web_hash = omega arith;
    web_time = omega arith;
    thread_name_hash = omega arith;
    text1 = omega arith;
    text2 = omega arith;
    queuing_host_hash = omega arith;
    queuing_time = omega arith;
    queuing2nd_host_hash = omega arith;
    queuing2nd_time = omega arith;
    text3 = omega arith;
    text4 = omega arith;
    text5 = omega arith;
    profile_count = omega arith;
    profile_size = omega arith;
  };
  short = omega arith;
}

read_pack-write_pack_example :
    read_pack 0 (new_input_offset ((write_pack (xlog_pack sample_xlog) started).buf ++ (9 ∷ [])) 3)
    ≡ ok (
      xlog_pack sample_xlog,
      new_input_offset
          ((write_pack (xlog_pack sample_xlog) started).buf ++ (9 ∷ []))
          (length (write_pack (xlog_pack sample_xlog) started).buf),
    )
read_pack-write_pack_example =
    read_pack-write_pack 0 (xlog_pack sample_xlog) started (9 ∷ []) sample_xlog-IsXlogPack

read_xlog_filter_fields-write_pack_example :
    read_xlog_filter_fields ((write_pack (xlog_pack sample_xlog) new_output).buf ++ (9 ∷ []))
    ≡ ok (77, 1500)
read_xlog_filter_fields-write_pack_example =
    read_xlog_filter_fields-write_pack sample_xlog (9 ∷ []) sample_xlog-IsXlogPack

-- The bytes of a control step with a message, and one byte more.
abbrev input : DataInputX
input = record { buf = 10 ∷ 1 ∷ 1 ∷ 1 ∷ 107 ∷ 20 ∷ 1 ∷ 5 ∷ 44 ∷ []; offset = 0 }

abbrev input_end : DataInputX
input_end = record { buf = 10 ∷ 1 ∷ 1 ∷ 1 ∷ 107 ∷ 20 ∷ 1 ∷ 5 ∷ 44 ∷ []; offset = 8 }

read_pack_bounds_example : (input_end.buf ≡ input.buf) × (0 < 8) × (8 ≤ 9)
unfolding read_pack create_pack read_map_pack read_map_value read_entries read_value create_value
    read_created ◌>>=◌ return read_byte read_decimal read_decimal_body read_text read_blob
    read_blob_body read read_bytes advance
read_pack_bounds_example =
    read_pack_bounds 2 input input_end
      (map_pack (record { table = entry_and (107 ∷ []) (decimal_value 5) no_entries }))
      (omega arith) refl

abbrev step_input : DataInputX
step_input = record { buf = 3 ∷ 0 ∷ 0 ∷ 0 ∷ 0 ∷ 1 ∷ 104 ∷ 44 ∷ []; offset = 0 }

abbrev step_end : DataInputX
step_end = record { buf = 3 ∷ 0 ∷ 0 ∷ 0 ∷ 0 ∷ 1 ∷ 104 ∷ 44 ∷ []; offset = 7 }

read_step_bounds_example : (step_end.buf ≡ step_input.buf) × (0 < 7) × (7 ≤ 8)
unfolding read_step create_step read_message_step read_step_single read_created ◌>>=◌ return
    read_byte read_decimal32 read_decimal read_decimal_body read_text read_blob read_blob_body read
    read_bytes advance
read_step_bounds_example =
    read_step_bounds step_input step_end
      (message_step (record {
        single = record { parent = 0; index = 0; start_time = 0; start_cpu = 0 };
        message = 104 ∷ [];
      }))
      (omega arith) refl

map_get-map_put_example :
    map_get (107 ∷ []) (
      map_put
        (107 ∷ [])
        (decimal_value 6)
        (record { table = entry_and (107 ∷ []) (decimal_value 5) no_entries }))
    ≡ decimal_value 6
unfolding key_discrete ℕ_discrete
map_get-map_put_example =
    map_get-map_put (107 ∷ []) (107 ∷ []) (decimal_value 6)
      (record { table = entry_and (107 ∷ []) (decimal_value 5) no_entries })

map_size-map_put_example :
    map_size (
      map_put
        (106 ∷ [])
        (decimal_value 6)
        (record { table = entry_and (107 ∷ []) (decimal_value 5) no_entries }))
    ≡ 2
unfolding find_entry map_size key_discrete ℕ_discrete
map_size-map_put_example =
    map_size-map_put (106 ∷ []) (decimal_value 6)
      (record { table = entry_and (107 ∷ []) (decimal_value 5) no_entries })

read_blob_ref-eq-read_blob_example :
    read_blob_ref (new_input (2 ∷ 7 ∷ 8 ∷ [])) ≡ read_blob (new_input (2 ∷ 7 ∷ 8 ∷ []))
read_blob_ref-eq-read_blob_example = read_blob_ref-eq-read_blob (new_input (2 ∷ 7 ∷ 8 ∷ []))

abbrev zeros : ℕ → List ℕ
zeros zero = []
zeros (suc n) = 0 ∷ zeros n

length-zeros : (n : ℕ) → length (zeros n) ≡ n
length-zeros zero = refl
length-zeros (suc n) = omega (arith, length-zeros n)

read_array_int-write_array_int_panics_example :
    read_array_int (
      new_input_offset
        ((write_array_int (zeros 32768) new_output).buf ++ [])
        (length new_output.buf))
    ≡ panic
read_array_int-write_array_int_panics_example =
    read_array_int-write_array_int_panics (zeros 32768) new_output []
      (omega (arith, length-zeros 32768)) (omega (arith, length-zeros 32768))

-- A datagram's worth of a map pack that claims more entries than there are.
read_pack-ne-stuck_example : read_pack 4 (new_input (10 ∷ 2 ∷ 9 ∷ [])) ≢ stuck
unfolding new_input
read_pack-ne-stuck_example =
    read_pack-ne-stuck 4 (new_input (10 ∷ 2 ∷ 9 ∷ [])) (omega arith) (omega arith)
