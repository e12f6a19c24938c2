-- ===== src/Protocol/Fuel/Packs.antt =====
-- ReadPack ends on every input.
use scouter_server_go.Common.{
  ℕ, ◌-◌, ◌<◌, ◌≢◌, refl, ltb, Bool-cases, true, false, inl, inr, sym, ◌∙◌, ◌≤◌, ◌≡◌, ◌==◌, length,
  arith,
}
use scouter_server_go.Protocol.Input.{
  DataInputX, Result, ok, err, panic, stuck, Reader, new_input, available, return,
}
use scouter_server_go.Protocol.Bounds.{InBounds, InBounds-return, InBounds-byte}
use scouter_server_go.Protocol.Bounds.Words.{reads, InBounds-blob}
use scouter_server_go.Protocol.Bounds.Values.{InBounds-value, InBounds-map_value}
use scouter_server_go.Protocol.Bounds.Packs.{
  InBounds-map_field, InBounds-list_field, InBounds-map_pack, InBounds-xlog_pack,
  InBounds-dropped_xlog_pack, InBounds-xlog_profile_pack, InBounds-xlog_profile_pack2,
  InBounds-span_pack, InBounds-span_container_pack, InBounds-text_pack, InBounds-perf_counter_pack,
  InBounds-status_pack, InBounds-stack_pack, InBounds-summary_pack, InBounds-batch_pack,
  InBounds-interaction_perf_counter_pack, InBounds-alert_pack, InBounds-object_pack,
}
use scouter_server_go.Protocol.Fuel.{
  HasFuel, HasFuel-return, HasFuel-bind, HasFuel-byte, HasFuel-created, CreatesHasFuel, created_if,
}
use scouter_server_go.Protocol.Fuel.Words.{fuel_reads, HasFuel-blob}
use scouter_server_go.Protocol.Fuel.Values.{HasFuel-value, HasFuel-map_value}
use scouter_server_go.Protocol.Pack.Fields.{read_map_field, read_list_field}
use scouter_server_go.Protocol.Pack.Wrapped.{if_available, resume, read_within, read_wrapped}
use scouter_server_go.Protocol.Pack.Map.{read_map_pack}
use scouter_server_go.Protocol.Pack.Xlog.{XlogPack, read_xlog_head, read_xlog_tail, read_xlog_pack}
use scouter_server_go.Protocol.Pack.Plain.{
  read_dropped_xlog_pack, read_xlog_profile_pack, read_xlog_profile_pack2, read_span_container_pack,
  read_text_pack, read_stack_pack,
}
use scouter_server_go.Protocol.Pack.Object.{read_alert_pack, read_object_pack}
use scouter_server_go.Protocol.Pack.Spans.{read_span_pack}
use scouter_server_go.Protocol.Pack.Counter.{
  read_perf_counter_pack, read_status_pack, read_summary_pack, read_interaction_perf_counter_pack,
}
use scouter_server_go.Protocol.Pack.Batch.{read_batch_fields, read_batch_pack}
use scouter_server_go.Protocol.Pack.Union.{create_pack, read_pack}

module _ {ℓ} {A : Type ℓ} (r : Reader A) (a : A) (d : DataInputX) where
  if_available-read : ltb 0 (available d) ≡ true → if_available r a d ≡ r d
  unfolding if_available
  if_available-read c = rw c refl

  if_available-none : ltb 0 (available d) ≡ false → if_available r a d ≡ return a d
  unfolding if_available return
  if_available-none c = rw c refl

InBounds-if_available {ℓ} :
    {A : Type ℓ} {r : Reader A} (a : A) → InBounds r → InBounds (if_available r a)
unfolding if_available
InBounds-if_available {r = r} a p = record {
  moves = λ d e x h eq. elim (Bool-cases (ltb 0 (available d))) [
    | inl c ↦ p.moves d e x h (sym (if_available-read r a d c) ∙ eq)
    | inr c ↦ (InBounds-return a).moves d e x h (sym (if_available-none r a d c) ∙ eq)
  ];
}

HasFuel-if_available {ℓ} :
    {A : Type ℓ} {n : ℕ} {r : Reader A} (a : A) → HasFuel n r → HasFuel n (if_available r a)
unfolding if_available
HasFuel-if_available {r = r} a p = record {
  runs = λ d h l. elim (Bool-cases (ltb 0 (available d))) [
    | inl c ↦ rw (if_available-read r a d c) (p.runs d h l)
    | inr c ↦ rw (if_available-none r a d c) ((HasFuel-return a).runs d h l)
  ];
}

resume-ne-stuck {ℓ} :
    {A : Type ℓ} (x : Result (A × DataInputX)) (d : DataInputX) → x ≢ stuck → resume x d ≢ stuck
resume-ne-stuck (ok (a, m)) d h e = cc
resume-ne-stuck (err x) d h e = cc
resume-ne-stuck panic d h e = cc
resume-ne-stuck stuck d h e = h refl

-- The inner reader needs no fuel, whatever its buffer is.
HasFuel-wrapped {ℓ} :
    {A : Type ℓ} {n : ℕ} {r : Reader A} → ((k : ℕ) → HasFuel k r) → HasFuel n (read_wrapped r)
unfolding read_wrapped read_within new_input
HasFuel-wrapped p = HasFuel-bind InBounds-blob HasFuel-blob (λ b. record {
  runs = λ d h l. resume-ne-stuck _ d ((p (length b)).runs _ (omega arith) (omega arith));
})

module _ {n : ℕ} where
  HasFuel-xlog_head : HasFuel n read_xlog_head
  unfolding read_xlog_head
  HasFuel-xlog_head = search (reads, fuel_reads) depth 60

  HasFuel-xlog_tail : (s : XlogPack) → HasFuel n (read_xlog_tail s)
  unfolding read_xlog_tail
  HasFuel-xlog_tail s =
      search (reads, fuel_reads, InBounds-if_available, HasFuel-if_available) depth 90 fits 20000

  HasFuel-batch_fields : HasFuel n read_batch_fields
  unfolding read_batch_fields
  HasFuel-batch_fields = search (reads, fuel_reads) depth 60

InBounds-xlog_head : InBounds read_xlog_head
unfolding read_xlog_head
InBounds-xlog_head = search reads depth 60

module _ (n f : ℕ) (h : n < f) where
  HasFuel-map_field : HasFuel n (read_map_field f)
  unfolding read_map_field
  HasFuel-map_field = HasFuel-bind (InBounds-value f) (HasFuel-value f n h) (λ v. HasFuel-return _)

  HasFuel-list_field : HasFuel n (read_list_field f)
  unfolding read_list_field
  HasFuel-list_field = HasFuel-bind (InBounds-value f) (HasFuel-value f n h) (λ v. HasFuel-return _)

  HasFuel-map_pack : HasFuel n (read_map_pack f)
  unfolding read_map_pack
  HasFuel-map_pack =
      HasFuel-bind (InBounds-map_value (InBounds-value f))
        (HasFuel-map_value n (InBounds-value f) (HasFuel-value f n h)) (λ t. HasFuel-return _)

  HasFuel-xlog_pack : HasFuel n read_xlog_pack
  unfolding read_xlog_pack
  HasFuel-xlog_pack =
      HasFuel-wrapped (λ k. HasFuel-bind InBounds-xlog_head HasFuel-xlog_head HasFuel-xlog_tail)

  HasFuel-batch_pack : HasFuel n read_batch_pack
  unfolding read_batch_pack
  HasFuel-batch_pack = HasFuel-wrapped (λ k. HasFuel-batch_fields)

  ruleset fuel_fields = (
    reads, fuel_reads, InBounds-map_field, InBounds-list_field, HasFuel-map_field,
    HasFuel-list_field,
  )

  HasFuel-dropped_xlog_pack : HasFuel n read_dropped_xlog_pack
  unfolding read_dropped_xlog_pack
  HasFuel-dropped_xlog_pack = search fuel_fields depth 60

  HasFuel-xlog_profile_pack : HasFuel n read_xlog_profile_pack
  unfolding read_xlog_profile_pack
  HasFuel-xlog_profile_pack = search fuel_fields depth 60

  HasFuel-xlog_profile_pack2 : HasFuel n read_xlog_profile_pack2
  unfolding read_xlog_profile_pack2
  HasFuel-xlog_profile_pack2 =
      search (fuel_fields, InBounds-xlog_profile_pack, HasFuel-xlog_profile_pack) depth 60

  HasFuel-span_container_pack : HasFuel n read_span_container_pack
  unfolding read_span_container_pack
  HasFuel-span_container_pack = search fuel_fields depth 60

  HasFuel-text_pack : HasFuel n read_text_pack
  unfolding read_text_pack
  HasFuel-text_pack = search fuel_fields depth 60

  HasFuel-stack_pack : HasFuel n read_stack_pack
  unfolding read_stack_pack
  HasFuel-stack_pack = search fuel_fields depth 60

  HasFuel-span_pack : HasFuel n (read_span_pack f)
  unfolding read_span_pack
  HasFuel-span_pack = search fuel_fields depth 60

  HasFuel-perf_counter_pack : HasFuel n (read_perf_counter_pack f)
  unfolding read_perf_counter_pack
  HasFuel-perf_counter_pack = search fuel_fields depth 60

  HasFuel-status_pack : HasFuel n (read_status_pack f)
  unfolding read_status_pack
  HasFuel-status_pack = search fuel_fields depth 60

  HasFuel-summary_pack : HasFuel n (read_summary_pack f)
  unfolding read_summary_pack
  HasFuel-summary_pack = search fuel_fields depth 60

  HasFuel-interaction_perf_counter_pack : HasFuel n (read_interaction_perf_counter_pack f)
  unfolding read_interaction_perf_counter_pack
  HasFuel-interaction_perf_counter_pack = search fuel_fields depth 60

  HasFuel-alert_pack : HasFuel n (read_alert_pack f)
  unfolding read_alert_pack
  HasFuel-alert_pack = search fuel_fields depth 60

  HasFuel-object_pack : HasFuel n (read_object_pack f)
  unfolding read_object_pack
  HasFuel-object_pack = search fuel_fields depth 60

  create_pack-HasFuel : (t : ℕ) → CreatesHasFuel n (create_pack f t)
  unfolding create_pack
  create_pack-HasFuel t =
      created_if n (t == 10) _
        (HasFuel-bind (InBounds-map_pack f) HasFuel-map_pack (λ s. HasFuel-return _))
        (created_if n (t == 21) _
          (HasFuel-bind InBounds-xlog_pack HasFuel-xlog_pack (λ s. HasFuel-return _))
          (created_if n (t == 22) _
            (HasFuel-bind InBounds-dropped_xlog_pack HasFuel-dropped_xlog_pack
              (λ s. HasFuel-return _))
            (created_if n (t == 26) _
              (HasFuel-bind InBounds-xlog_profile_pack HasFuel-xlog_profile_pack
                (λ s. HasFuel-return _))
              (created_if n (t == 27) _
                (HasFuel-bind InBounds-xlog_profile_pack2 HasFuel-xlog_profile_pack2
                  (λ s. HasFuel-return _))
                (created_if n (t == 31) _
                  (HasFuel-bind (InBounds-span_pack f) HasFuel-span_pack (λ s. HasFuel-return _))
                  (created_if n (t == 32) _
                    (HasFuel-bind InBounds-span_container_pack HasFuel-span_container_pack
                      (λ s. HasFuel-return _))
                    (created_if n (t == 50) _
                      (HasFuel-bind InBounds-text_pack HasFuel-text_pack (λ s. HasFuel-return _))
                      (created_if n (t == 60) _
                        (HasFuel-bind (InBounds-perf_counter_pack f) HasFuel-perf_counter_pack
                          (λ s. HasFuel-return _))
                        (created_if n (t == 61) _
                          (HasFuel-bind (InBounds-status_pack f) HasFuel-status_pack
                            (λ s. HasFuel-return _))
                          (created_if n (t == 62) _
                            (HasFuel-bind InBounds-stack_pack HasFuel-stack_pack
                              (λ s. HasFuel-return _))
                            (created_if n (t == 63) _
                              (HasFuel-bind (InBounds-summary_pack f) HasFuel-summary_pack
                                (λ s. HasFuel-return _))
                              (created_if n (t == 64) _
                                (HasFuel-bind InBounds-batch_pack HasFuel-batch_pack
                                  (λ s. HasFuel-return _))
                                (created_if n (t == 65) _
                                  (HasFuel-bind (InBounds-interaction_perf_counter_pack f)
                                    HasFuel-interaction_perf_counter_pack (λ s. HasFuel-return _))
                                  (created_if n (t == 70) _
                                    (HasFuel-bind (InBounds-alert_pack f) HasFuel-alert_pack
                                      (λ s. HasFuel-return _))
                                    (created_if n (t == 80) _
                                      (HasFuel-bind (InBounds-object_pack f) HasFuel-object_pack
                                        (λ s. HasFuel-return _))
                                      (tt))))))))))))))))

  HasFuel-pack : HasFuel n (read_pack f)
  unfolding read_pack
  HasFuel-pack =
      HasFuel-bind InBounds-byte HasFuel-byte
        (λ t. HasFuel-created n t (create_pack f t) (create_pack-HasFuel t))

-- With one unit more than there are bytes left ReadPack returns a pack or an error, or panics.
pub read_pack-ne-stuck :
    (f : ℕ) (d : DataInputX)
    → d.offset ≤ length d.buf
    → length d.buf - d.offset < f
    → read_pack f d ≢ stuck
read_pack-ne-stuck f d h l = (HasFuel-pack (length d.buf - d.offset) f l).runs d h (omega arith)
