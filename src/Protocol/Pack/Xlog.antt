-- ===== src/Protocol/Pack/Xlog.antt =====
-- XLogPack of internal/protocol/pack/xlog_pack.go: the fields in the order of their writes. The groups
-- from the country code on are optional: an older agent ends the blob before one of them.
use scouter_server_go.Common.{ℕ, Bool, false, List, []}
use scouter_server_go.Protocol.Word.{i64_of_i32}
use scouter_server_go.Protocol.Output.{
  Writer, ◌⨾◌, write_byte, write_boolean, write_int64, write_decimal, write_blob, write_text,
}
use scouter_server_go.Protocol.Input.{
  Reader, return, ◌>>=◌, read_byte, read_boolean, read_int64, read_decimal, read_decimal32,
  read_blob, read_text,
}
use scouter_server_go.Protocol.Pack.Wrapped.{write_wrapped, read_wrapped, if_available}

pub record XlogPack : Type 0 where
  pub end_time : ℕ
  pub obj_hash : ℕ
  pub service : ℕ
  pub txid : ℕ
  pub caller : ℕ
  pub gxid : ℕ
  pub elapsed : ℕ
  pub error : ℕ
  pub cpu : ℕ
  pub sql_count : ℕ
  pub sql_time : ℕ
  pub ip_addr : List ℕ
  pub kbytes : ℕ
  pub status : ℕ
  pub userid : ℕ
  pub user_agent : ℕ
  pub referer : ℕ
  pub group : ℕ
  pub apicall_count : ℕ
  pub apicall_time : ℕ
  pub country_code : List ℕ
  pub city : ℕ
  pub xtype : ℕ
  pub login : ℕ
  pub desc : ℕ
  pub web_hash : ℕ
  pub web_time : ℕ
  pub has_dump : ℕ
  pub thread_name_hash : ℕ
  pub text1 : List ℕ
  pub text2 : List ℕ
  pub queuing_host_hash : ℕ
  pub queuing_time : ℕ
  pub queuing2nd_host_hash : ℕ
  pub queuing2nd_time : ℕ
  pub text3 : List ℕ
  pub text4 : List ℕ
  pub text5 : List ℕ
  pub profile_count : ℕ
  pub b3_mode : Bool
  pub profile_size : ℕ
  pub discard_type : ℕ
  pub ignore_global_consequent_sampling : Bool

-- The fields that every agent writes.
unfoldable pub write_xlog_head : XlogPack → Writer
write_xlog_head s =
    write_decimal s.end_time
    ⨾ write_decimal (i64_of_i32 s.obj_hash)
    ⨾ write_decimal (i64_of_i32 s.service)
    ⨾ write_int64 s.txid
    ⨾ write_int64 s.caller
    ⨾ write_int64 s.gxid
    ⨾ write_decimal (i64_of_i32 s.elapsed)
    ⨾ write_decimal (i64_of_i32 s.error)
    ⨾ write_decimal (i64_of_i32 s.cpu)
    ⨾ write_decimal (i64_of_i32 s.sql_count)
    ⨾ write_decimal (i64_of_i32 s.sql_time)
    ⨾ write_blob s.ip_addr
    ⨾ write_decimal (i64_of_i32 s.kbytes)
    ⨾ write_decimal (i64_of_i32 s.status)
    ⨾ write_decimal s.userid
    ⨾ write_decimal (i64_of_i32 s.user_agent)
    ⨾ write_decimal (i64_of_i32 s.referer)
    ⨾ write_decimal (i64_of_i32 s.group)
    ⨾ write_decimal (i64_of_i32 s.apicall_count)
    ⨾ write_decimal (i64_of_i32 s.apicall_time)

-- The optional groups.
unfoldable pub write_xlog_tail : XlogPack → Writer
write_xlog_tail s =
    (write_text s.country_code ⨾ write_decimal (i64_of_i32 s.city))
    ⨾ write_byte s.xtype
    ⨾ (write_decimal (i64_of_i32 s.login) ⨾ write_decimal (i64_of_i32 s.desc))
    ⨾ (write_decimal (i64_of_i32 s.web_hash) ⨾ write_decimal (i64_of_i32 s.web_time))
    ⨾ write_byte s.has_dump
    ⨾ write_decimal (i64_of_i32 s.thread_name_hash)
    ⨾ (write_text s.text1 ⨾ write_text s.text2)
    ⨾ (write_decimal (i64_of_i32 s.queuing_host_hash)
        ⨾ write_decimal (i64_of_i32 s.queuing_time)
        ⨾ write_decimal (i64_of_i32 s.queuing2nd_host_hash)
        ⨾ write_decimal (i64_of_i32 s.queuing2nd_time))
    ⨾ (write_text s.text3 ⨾ write_text s.text4 ⨾ write_text s.text5)
    ⨾ write_decimal (i64_of_i32 s.profile_count)
    ⨾ write_boolean s.b3_mode
    ⨾ (write_decimal (i64_of_i32 s.profile_size)
        ⨾ write_byte s.discard_type
        ⨾ write_boolean s.ignore_global_consequent_sampling)

unfoldable pub write_xlog_pack : XlogPack → Writer
write_xlog_pack s = write_wrapped (write_xlog_head s ⨾ write_xlog_tail s)

-- A pack with the fields of the head and none of the groups.
unfoldable pub read_xlog_head : Reader XlogPack
read_xlog_head = do
  end_time ← read_decimal
  obj_hash ← read_decimal32
  service ← read_decimal32
  txid ← read_int64
  caller ← read_int64
  gxid ← read_int64
  elapsed ← read_decimal32
  error ← read_decimal32
  cpu ← read_decimal32
  sql_count ← read_decimal32
  sql_time ← read_decimal32
  ip_addr ← read_blob
  kbytes ← read_decimal32
  status ← read_decimal32
  userid ← read_decimal
  user_agent ← read_decimal32
  referer ← read_decimal32
  group ← read_decimal32
  apicall_count ← read_decimal32
  apicall_time ← read_decimal32
  return (record {
    end_time = end_time;
    obj_hash = obj_hash;
    service = service;
    txid = txid;
    caller = caller;
    gxid = gxid;
    elapsed = elapsed;
    error = error;
    cpu = cpu;
    sql_count = sql_count;
    sql_time = sql_time;
    ip_addr = ip_addr;
    kbytes = kbytes;
    status = status;
    userid = userid;
    user_agent = user_agent;
    referer = referer;
    group = group;
    apicall_count = apicall_count;
    apicall_time = apicall_time;
    country_code = [];
    city = 0;
    xtype = 0;
    login = 0;
    desc = 0;
    web_hash = 0;
    web_time = 0;
    has_dump = 0;
    thread_name_hash = 0;
    text1 = [];
    text2 = [];
    queuing_host_hash = 0;
    queuing_time = 0;
    queuing2nd_host_hash = 0;
    queuing2nd_time = 0;
    text3 = [];
    text4 = [];
    text5 = [];
    profile_count = 0;
    b3_mode = false;
    profile_size = 0;
    discard_type = 0;
    ignore_global_consequent_sampling = false;
  })

unfoldable pub read_xlog_tail : XlogPack → Reader XlogPack
read_xlog_tail s = do
  (country_code, city) ←
      if_available (do country_code ← read_text; city ← read_decimal32; return (country_code, city))
        ([], 0)
  xtype ← if_available read_byte 0
  (login, desc) ←
      if_available (do login ← read_decimal32; desc ← read_decimal32; return (login, desc)) (0, 0)
  (web_hash, web_time) ←
      if_available
        (do web_hash ← read_decimal32; web_time ← read_decimal32; return (web_hash, web_time))
        (0, 0)
  has_dump ← if_available read_byte 0
  thread_name_hash ← if_available read_decimal32 0
  (text1, text2) ←
      if_available (do text1 ← read_text; text2 ← read_text; return (text1, text2)) ([], [])
  (queuing_host_hash, queuing_time, queuing2nd_host_hash, queuing2nd_time) ←
      if_available
        (do
          queuing_host_hash ← read_decimal32
          queuing_time ← read_decimal32
          queuing2nd_host_hash ← read_decimal32
          queuing2nd_time ← read_decimal32
          return (queuing_host_hash, queuing_time, queuing2nd_host_hash, queuing2nd_time))
        (0, 0, 0, 0)
  (text3, text4, text5) ←
      if_available
        (do text3 ← read_text; text4 ← read_text; text5 ← read_text; return (text3, text4, text5))
        ([], [], [])
  profile_count ← if_available read_decimal32 0
  b3_mode ← if_available read_boolean false
  (profile_size, discard_type, ignore_global_consequent_sampling) ←
      if_available
        (do
          profile_size ← read_decimal32
          discard_type ← read_byte
          ignore_global_consequent_sampling ← read_boolean
          return (profile_size, discard_type, ignore_global_consequent_sampling))
        (0, 0, false)
  return (record s {
    country_code = country_code;
    city = city;
    xtype = xtype;
    login = login;
    desc = desc;
    web_hash = web_hash;
    web_time = web_time;
    has_dump = has_dump;
    thread_name_hash = thread_name_hash;
    text1 = text1;
    text2 = text2;
    queuing_host_hash = queuing_host_hash;
    queuing_time = queuing_time;
    queuing2nd_host_hash = queuing2nd_host_hash;
    queuing2nd_time = queuing2nd_time;
    text3 = text3;
    text4 = text4;
    text5 = text5;
    profile_count = profile_count;
    b3_mode = b3_mode;
    profile_size = profile_size;
    discard_type = discard_type;
    ignore_global_consequent_sampling = ignore_global_consequent_sampling;
  })

unfoldable pub read_xlog_pack : Reader XlogPack
read_xlog_pack = read_wrapped (do s ← read_xlog_head; read_xlog_tail s)
