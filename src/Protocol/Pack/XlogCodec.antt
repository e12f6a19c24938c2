-- ===== src/Protocol/Pack/XlogCodec.antt =====
-- XLogPack is read back, with its optional groups.
use scouter_server_go.Common.{◌≡◌, refl, false, [], ap}
use scouter_server_go.Protocol.Word.{IsI32, IsI64}
use scouter_server_go.Protocol.Output.{◌⨾◌}
use scouter_server_go.Protocol.Input.{
  Reader, ◌>>=◌, read_byte, read_boolean, read_decimal, read_decimal32, read_blob, read_text,
  new_input, err, eof, then_with,
}
use scouter_server_go.Protocol.Codec.{RoundTrips, RoundTrips-seq, RoundTrips-last}
use scouter_server_go.Protocol.WordCodec.{RoundTrips-byte, RoundTrips-boolean, RoundTrips-int64}
use scouter_server_go.Protocol.DecimalCodec.{RoundTrips-decimal, RoundTrips-decimal32}
use scouter_server_go.Protocol.SliceCodec.{IsBlob, RoundTrips-blob, RoundTrips-text}
use scouter_server_go.Protocol.Pack.Wrapped.{inner_bytes, RoundTrips-wrapped, RoundTrips-available}
use scouter_server_go.Protocol.Pack.Xlog.{
  XlogPack, write_xlog_head, write_xlog_tail, write_xlog_pack, read_xlog_head, read_xlog_tail,
  read_xlog_pack,
}

-- The head of `s`, as it is read: no group was.
abbrev pub head_of : XlogPack → XlogPack
head_of s = record s {
  country_code = [];
  city = 0;
  xtype = 0;
  login = 0;
  desc = 0;
  web_hash = 0;
  web_time = 0;
  has_dump = 0;
  thread_name_hash = 0;
  text1 = [];
  text2 = [];
  queuing_host_hash = 0;
  queuing_time = 0;
  queuing2nd_host_hash = 0;
  queuing2nd_time = 0;
  text3 = [];
  text4 = [];
  text5 = [];
  profile_count = 0;
  b3_mode = false;
  profile_size = 0;
  discard_type = 0;
  ignore_global_consequent_sampling = false;
}

pub record IsXlogHead (s : XlogPack) : Type 0 where
  pub end_time : IsI64 s.end_time
  pub obj_hash : IsI32 s.obj_hash
  pub service : IsI32 s.service
  pub txid : IsI64 s.txid
  pub caller : IsI64 s.caller
  pub gxid : IsI64 s.gxid
  pub elapsed : IsI32 s.elapsed
  pub error : IsI32 s.error
  pub cpu : IsI32 s.cpu
  pub sql_count : IsI32 s.sql_count
  pub sql_time : IsI32 s.sql_time
  pub ip_addr : IsBlob s.ip_addr
  pub kbytes : IsI32 s.kbytes
  pub status : IsI32 s.status
  pub userid : IsI64 s.userid
  pub user_agent : IsI32 s.user_agent
  pub referer : IsI32 s.referer
  pub group : IsI32 s.group
  pub apicall_count : IsI32 s.apicall_count
  pub apicall_time : IsI32 s.apicall_time

pub record IsXlogTail (s : XlogPack) : Type 0 where
  pub country_code : IsBlob s.country_code
  pub city : IsI32 s.city
  pub login : IsI32 s.login
  pub desc : IsI32 s.desc
  pub web_hash : IsI32 s.web_hash
  pub web_time : IsI32 s.web_time
  pub thread_name_hash : IsI32 s.thread_name_hash
  pub text1 : IsBlob s.text1
  pub text2 : IsBlob s.text2
  pub queuing_host_hash : IsI32 s.queuing_host_hash
  pub queuing_time : IsI32 s.queuing_time
  pub queuing2nd_host_hash : IsI32 s.queuing2nd_host_hash
  pub queuing2nd_time : IsI32 s.queuing2nd_time
  pub text3 : IsBlob s.text3
  pub text4 : IsBlob s.text4
  pub text5 : IsBlob s.text5
  pub profile_count : IsI32 s.profile_count
  pub profile_size : IsI32 s.profile_size

pub record IsXlogPack (s : XlogPack) : Type 0 where
  pub head : IsXlogHead s
  pub tail : IsXlogTail s
  pub short : IsBlob (inner_bytes (write_xlog_head s ⨾ write_xlog_tail s))

pub RoundTrips-xlog_head :
    (s : XlogPack) → IsXlogHead s → RoundTrips (write_xlog_head s) read_xlog_head (head_of s)
unfolding write_xlog_head read_xlog_head
RoundTrips-xlog_head s v = RoundTrips-seq _ (RoundTrips-decimal s.end_time v.end_time) (
    RoundTrips-seq _ (RoundTrips-decimal32 s.obj_hash v.obj_hash) (
      RoundTrips-seq _ (RoundTrips-decimal32 s.service v.service) (
        RoundTrips-seq _ (RoundTrips-int64 s.txid v.txid) (
          RoundTrips-seq _ (RoundTrips-int64 s.caller v.caller) (
            RoundTrips-seq _ (RoundTrips-int64 s.gxid v.gxid) (
              RoundTrips-seq _ (RoundTrips-decimal32 s.elapsed v.elapsed) (
                RoundTrips-seq _ (RoundTrips-decimal32 s.error v.error) (
                  RoundTrips-seq _ (RoundTrips-decimal32 s.cpu v.cpu) (
                    RoundTrips-seq _ (RoundTrips-decimal32 s.sql_count v.sql_count) (
                      RoundTrips-seq _ (RoundTrips-decimal32 s.sql_time v.sql_time) (
                        RoundTrips-seq _ (RoundTrips-blob s.ip_addr v.ip_addr) (
                          RoundTrips-seq _ (RoundTrips-decimal32 s.kbytes v.kbytes) (
                            RoundTrips-seq _ (RoundTrips-decimal32 s.status v.status) (
                              RoundTrips-seq _ (RoundTrips-decimal s.userid v.userid) (
                                RoundTrips-seq _ (RoundTrips-decimal32 s.user_agent v.user_agent) (
                                  RoundTrips-seq _ (RoundTrips-decimal32 s.referer v.referer) (
                                    RoundTrips-seq _ (RoundTrips-decimal32 s.group v.group) (
                                      RoundTrips-seq _
                                        (RoundTrips-decimal32 s.apicall_count v.apicall_count)
                                        (RoundTrips-last _ (
                                          RoundTrips-decimal32 s.apicall_time
                                            v.apicall_time))))))))))))))))))))

-- The first reader of each group fails on the empty input.
decimal_empty : read_decimal32 (new_input []) ≡ err eof
unfolding read_decimal32 read_decimal read_byte new_input ◌>>=◌
decimal_empty = refl

text_empty : read_text (new_input []) ≡ err eof
unfolding read_text read_blob read_byte new_input ◌>>=◌
text_empty = refl

byte_empty : read_byte (new_input []) ≡ err eof
unfolding read_byte new_input
byte_empty = refl

boolean_empty : read_boolean (new_input []) ≡ err eof
unfolding read_boolean read_byte new_input ◌>>=◌
boolean_empty = refl

bind_empty :
    {A B : Type 0} (r : Reader A) (f : A → Reader B)
    → r (new_input []) ≡ err eof
    → (r >>= f) (new_input []) ≡ err eof
unfolding ◌>>=◌
bind_empty r f e = ap (λ x. then_with x f) e

pub RoundTrips-xlog_tail :
    (s : XlogPack) → IsXlogTail s → RoundTrips (write_xlog_tail s) (read_xlog_tail (head_of s)) s
unfolding write_xlog_tail read_xlog_tail
RoundTrips-xlog_tail s v =
    RoundTrips-seq _
      (RoundTrips-available ([], 0) (bind_empty _ _ text_empty)
        (RoundTrips-seq _ (RoundTrips-text s.country_code v.country_code)
          (RoundTrips-last _ (RoundTrips-decimal32 s.city v.city))))
      (RoundTrips-seq _ (RoundTrips-available 0 byte_empty (RoundTrips-byte s.xtype)) (
        RoundTrips-seq _
          (RoundTrips-available (0, 0) (bind_empty _ _ decimal_empty)
            (RoundTrips-seq _ (RoundTrips-decimal32 s.login v.login)
              (RoundTrips-last _ (RoundTrips-decimal32 s.desc v.desc))))
          (RoundTrips-seq _
            (RoundTrips-available (0, 0) (bind_empty _ _ decimal_empty)
              (RoundTrips-seq _ (RoundTrips-decimal32 s.web_hash v.web_hash)
                (RoundTrips-last _ (RoundTrips-decimal32 s.web_time v.web_time))))
            (RoundTrips-seq _ (RoundTrips-available 0 byte_empty (RoundTrips-byte s.has_dump)) (
              RoundTrips-seq _
                (RoundTrips-available 0 decimal_empty
                  (RoundTrips-decimal32 s.thread_name_hash v.thread_name_hash))
                (RoundTrips-seq _
                  (RoundTrips-available ([], []) (bind_empty _ _ text_empty)
                    (RoundTrips-seq _ (RoundTrips-text s.text1 v.text1)
                      (RoundTrips-last _ (RoundTrips-text s.text2 v.text2))))
                  (RoundTrips-seq _
                    (RoundTrips-available (0, 0, 0, 0) (bind_empty _ _ decimal_empty)
                      (RoundTrips-seq _
                        (RoundTrips-decimal32 s.queuing_host_hash v.queuing_host_hash)
                        (RoundTrips-seq _ (RoundTrips-decimal32 s.queuing_time v.queuing_time) (
                          RoundTrips-seq _
                            (RoundTrips-decimal32 s.queuing2nd_host_hash v.queuing2nd_host_hash)
                            (RoundTrips-last _
                              (RoundTrips-decimal32 s.queuing2nd_time v.queuing2nd_time))))))
                    (RoundTrips-seq _
                      (RoundTrips-available ([], [], []) (bind_empty _ _ text_empty)
                        (RoundTrips-seq _ (RoundTrips-text s.text3 v.text3) (
                          RoundTrips-seq _ (RoundTrips-text s.text4 v.text4)
                            (RoundTrips-last _ (RoundTrips-text s.text5 v.text5)))))
                      (RoundTrips-seq _
                        (RoundTrips-available 0 decimal_empty
                          (RoundTrips-decimal32 s.profile_count v.profile_count))
                        (RoundTrips-seq _
                          (RoundTrips-available false boolean_empty (RoundTrips-boolean s.b3_mode))
                          (RoundTrips-last _ (
                            RoundTrips-available (0, 0, false) (bind_empty _ _ decimal_empty)
                              (RoundTrips-seq _ (RoundTrips-decimal32 s.profile_size v.profile_size)
                                (RoundTrips-seq _ (RoundTrips-byte s.discard_type) (
                                  RoundTrips-last _ (
                                    RoundTrips-boolean
                                      s.ignore_global_consequent_sampling))))))))))))))))

pub RoundTrips-xlog_pack :
    (s : XlogPack) → IsXlogPack s → RoundTrips (write_xlog_pack s) read_xlog_pack s
unfolding write_xlog_pack read_xlog_pack
RoundTrips-xlog_pack s v =
    RoundTrips-wrapped
      (RoundTrips-seq read_xlog_tail (RoundTrips-xlog_head s v.head)
        (RoundTrips-xlog_tail s v.tail))
      v.short
