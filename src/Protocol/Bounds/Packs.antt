-- ===== src/Protocol/Bounds/Packs.antt =====
-- ReadPack stays within the buffer.
use scouter_server_go.Common.{ℕ, ◌<◌, ◌≤◌, ◌≡◌, ◌==◌, length, arith}
use scouter_server_go.Protocol.Input.{DataInputX, Result, ok, err, panic, stuck, Reader, new_input}
use scouter_server_go.Protocol.Bounds.{
  Moves, InBounds, InBounds-return, InBounds-bind, InBounds-byte, InBounds-created, byte-forward,
  CreatesInBounds, created_if,
}
use scouter_server_go.Protocol.Bounds.Words.{reads, InBounds-blob}
use scouter_server_go.Protocol.Bounds.Values.{InBounds-value, InBounds-map_value}
use scouter_server_go.Protocol.Pack.Fields.{read_map_field, read_list_field}
use scouter_server_go.Protocol.Pack.Wrapped.{resume, read_within, read_wrapped}
use scouter_server_go.Protocol.Pack.Map.{read_map_pack}
use scouter_server_go.Protocol.Pack.Xlog.{read_xlog_pack}
use scouter_server_go.Protocol.Pack.Plain.{
  read_dropped_xlog_pack, read_xlog_profile_pack, read_xlog_profile_pack2, read_span_container_pack,
  read_text_pack, read_stack_pack,
}
use scouter_server_go.Protocol.Pack.Object.{read_alert_pack, read_object_pack}
use scouter_server_go.Protocol.Pack.Spans.{read_span_pack}
use scouter_server_go.Protocol.Pack.Counter.{
  read_perf_counter_pack, read_status_pack, read_summary_pack, read_interaction_perf_counter_pack,
}
use scouter_server_go.Protocol.Pack.Batch.{read_batch_pack}
use scouter_server_go.Protocol.Pack.Union.{Pack, create_pack, read_pack}

pub InBounds-map_field : (f : ℕ) → InBounds (read_map_field f)
unfolding read_map_field
InBounds-map_field f = InBounds-bind (InBounds-value f) (λ v. InBounds-return _)

pub InBounds-list_field : (f : ℕ) → InBounds (read_list_field f)
unfolding read_list_field
InBounds-list_field f = InBounds-bind (InBounds-value f) (λ v. InBounds-return _)

-- What is read from an inner buffer leaves the outer one where it stands.
resume-Moves {ℓ} :
    {A : Type ℓ} (x : Result (A × DataInputX)) (d e : DataInputX) (a : A)
    → d.offset ≤ length d.buf
    → resume x d ≡ ok (a, e)
    → Moves d e
resume-Moves (ok (b, m)) d e a h eq = ground arith
resume-Moves (err x) d e a h eq = cc
resume-Moves panic d e a h eq = cc
resume-Moves stuck d e a h eq = cc

pub InBounds-wrapped {ℓ} : {A : Type ℓ} (r : Reader A) → InBounds (read_wrapped r)
unfolding read_wrapped read_within new_input
InBounds-wrapped r =
    InBounds-bind InBounds-blob (λ b. record { moves = λ d e a h eq. resume-Moves _ d e a h eq })

ruleset pack_reads = (reads, InBounds-map_field, InBounds-list_field)

pub InBounds-map_pack : (f : ℕ) → InBounds (read_map_pack f)
unfolding read_map_pack
InBounds-map_pack f = InBounds-bind (InBounds-map_value (InBounds-value f)) (λ t. InBounds-return _)

pub InBounds-xlog_pack : InBounds read_xlog_pack
unfolding read_xlog_pack
InBounds-xlog_pack = InBounds-wrapped _

pub InBounds-dropped_xlog_pack : InBounds read_dropped_xlog_pack
unfolding read_dropped_xlog_pack
InBounds-dropped_xlog_pack = search pack_reads depth 40

pub InBounds-xlog_profile_pack : InBounds read_xlog_profile_pack
unfolding read_xlog_profile_pack
InBounds-xlog_profile_pack = search pack_reads depth 40

pub InBounds-xlog_profile_pack2 : InBounds read_xlog_profile_pack2
unfolding read_xlog_profile_pack2
InBounds-xlog_profile_pack2 = search (pack_reads, InBounds-xlog_profile_pack) depth 40

pub InBounds-span_pack : (f : ℕ) → InBounds (read_span_pack f)
unfolding read_span_pack
InBounds-span_pack f = search pack_reads depth 60

pub InBounds-span_container_pack : InBounds read_span_container_pack
unfolding read_span_container_pack
InBounds-span_container_pack = search pack_reads depth 40

pub InBounds-text_pack : InBounds read_text_pack
unfolding read_text_pack
InBounds-text_pack = search pack_reads depth 40

pub InBounds-perf_counter_pack : (f : ℕ) → InBounds (read_perf_counter_pack f)
unfolding read_perf_counter_pack
InBounds-perf_counter_pack f = search pack_reads depth 60

pub InBounds-status_pack : (f : ℕ) → InBounds (read_status_pack f)
unfolding read_status_pack
InBounds-status_pack f = search pack_reads depth 60

pub InBounds-stack_pack : InBounds read_stack_pack
unfolding read_stack_pack
InBounds-stack_pack = search pack_reads depth 40

pub InBounds-summary_pack : (f : ℕ) → InBounds (read_summary_pack f)
unfolding read_summary_pack
InBounds-summary_pack f = search pack_reads depth 60

pub InBounds-batch_pack : InBounds read_batch_pack
unfolding read_batch_pack
InBounds-batch_pack = InBounds-wrapped _

pub InBounds-interaction_perf_counter_pack :
    (f : ℕ) → InBounds (read_interaction_perf_counter_pack f)
unfolding read_interaction_perf_counter_pack
InBounds-interaction_perf_counter_pack f = search pack_reads depth 60

pub InBounds-alert_pack : (f : ℕ) → InBounds (read_alert_pack f)
unfolding read_alert_pack
InBounds-alert_pack f = search pack_reads depth 60

pub InBounds-object_pack : (f : ℕ) → InBounds (read_object_pack f)
unfolding read_object_pack
InBounds-object_pack f = search pack_reads depth 60

create_pack-InBounds : (f t : ℕ) → CreatesInBounds (create_pack f t)
unfolding create_pack
create_pack-InBounds f t =
    created_if (t == 10) _ (InBounds-bind (InBounds-map_pack f) (λ s. InBounds-return _)) (
      created_if (t == 21) _ (InBounds-bind InBounds-xlog_pack (λ s. InBounds-return _)) (
        created_if (t == 22) _ (InBounds-bind InBounds-dropped_xlog_pack (λ s. InBounds-return _)) (
          created_if (t == 26) _ (InBounds-bind InBounds-xlog_profile_pack (λ s. InBounds-return _))
            (created_if (t == 27) _
              (InBounds-bind InBounds-xlog_profile_pack2 (λ s. InBounds-return _))
              (created_if (t == 31) _
                (InBounds-bind (InBounds-span_pack f) (λ s. InBounds-return _))
                (created_if (t == 32) _
                  (InBounds-bind InBounds-span_container_pack (λ s. InBounds-return _))
                  (created_if (t == 50) _
                    (InBounds-bind InBounds-text_pack (λ s. InBounds-return _))
                    (created_if (t == 60) _
                      (InBounds-bind (InBounds-perf_counter_pack f) (λ s. InBounds-return _))
                      (created_if (t == 61) _
                        (InBounds-bind (InBounds-status_pack f) (λ s. InBounds-return _))
                        (created_if (t == 62) _
                          (InBounds-bind InBounds-stack_pack (λ s. InBounds-return _))
                          (created_if (t == 63) _
                            (InBounds-bind (InBounds-summary_pack f) (λ s. InBounds-return _))
                            (created_if (t == 64) _
                              (InBounds-bind InBounds-batch_pack (λ s. InBounds-return _))
                              (created_if (t == 65) _
                                (InBounds-bind (InBounds-interaction_perf_counter_pack f)
                                  (λ s. InBounds-return _))
                                (created_if (t == 70) _
                                  (InBounds-bind (InBounds-alert_pack f) (λ s. InBounds-return _))
                                  (created_if (t == 80) _
                                    (InBounds-bind (InBounds-object_pack f)
                                      (λ s. InBounds-return _))
                                    (tt))))))))))))))))

pub InBounds-pack : (f : ℕ) → InBounds (read_pack f)
unfolding read_pack
InBounds-pack f =
    InBounds-bind InBounds-byte
      (λ t. InBounds-created t (create_pack f t) (create_pack-InBounds f t))

-- Whatever the bytes are, from any offset within the buffer: a pack that is read leaves the buffer
-- as it was, and the offset moves forward by a byte at least and not past the end.
pub read_pack_bounds :
    (f : ℕ) (d e : DataInputX) (p : Pack)
    → d.offset ≤ length d.buf
    → read_pack f d ≡ ok (p, e)
    → (e.buf ≡ d.buf) × (d.offset < e.offset) × (e.offset ≤ length d.buf)
unfolding read_pack
read_pack_bounds f d e p h eq =
    let forward =
      byte-forward _ d e p (λ t. InBounds-created t _ (create_pack-InBounds f t)) h eq in
    let m = (InBounds-pack f).moves d e p h eq in (m.same, forward, m.inside)
