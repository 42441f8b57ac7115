-- ===== src/Coordinador/Protocolo/Turnos.antt =====
-- What a turn of host_scheduler does to the semaphores.
pub mod Trabajo
use tp_re_distinto_so.Base.{
  ℕ, zero, suc, ◌+◌, ◌-◌, ◌≡◌, ◌<◌, refl, sym, ◌∙◌, ap, Bool, true, false, List, [], ◌∷◌, ◌++◌,
  Option, some, fault, waits, if◌then◌else◌, ◌==◌, get_elem?, length, arith, length-update_at,
  Ensures, Ensures-done, Ensures-fault, Ensures-waits, Ensures-spent, Ensures-if, Ensures-elim,
  Ensures-mono, Ensures-option, Ensures->>=,
}
use tp_re_distinto_so.Coordinador.Estado.{
  Algorithm, el, lsu, ke, Operation, Header, Instance, Estado, Red, instancia_de, enviar,
  send_header,
}
use tp_re_distinto_so.Coordinador.Asignar.Conserva.{
  total_start, total_start-tomar, Conserva, Conserva-refl, Conserva-trans, Conserva-otros,
  Conserva-instances, total_start-same_at,
}
use tp_re_distinto_so.Coordinador.Mensajes.{
  update_instance, process_flag, process_message_header, wait_start,
}
use tp_re_distinto_so.Coordinador.Hilos.{
  post_result, mandar, caso_get, caso_store, caso_set, caso_de, turno_instance, preguntar,
  consulta_de, turno_scheduler, cabecera_set, carga_set, ultima,
}

-- The operations that an ESI can ask for.
abbrev pub es_pedido : Operation → Bool
es_pedido Operation.get = true
es_pedido Operation.set = true
es_pedido Operation.store = true
es_pedido Operation.status = false
es_pedido Operation.abort = false
es_pedido Operation.compact = false

pub mandar-Conserva :
    (socket id len len2 : ℕ) (carga : List ℕ) (s : Estado)
    → Conserva 0 s (mandar socket id len len2 carga s)
unfolding mandar enviar
mandar-Conserva socket id len len2 carga s =
    Conserva-otros 0 s s _ refl refl refl refl refl refl (Conserva-refl s)

en_ambas : (P : Estado → Type 0) (b : Bool) (s t : Estado) → P s → P t → P (if b then s else t)
en_ambas P true s t h k = h
en_ambas P false s t h k = k

process_flag-Conserva : (id : ℕ) (s : Estado) → Conserva 0 s (process_flag id s)
unfolding process_flag
process_flag-Conserva id s =
    let igual =
      λ (u : Estado) (i : u.instances ≡ s.instances) (o : u.operation ≡ s.operation)
          (e : u.esi_operation ≡ s.esi_operation) (r : u.scheduler_response ≡ s.scheduler_response)
          (w : u.result_instance ≡ s.result_instance) (k : u.key ≡ s.key).
        Conserva-otros 0 s s u i o e r w k (Conserva-refl s) in
    let P = Conserva 0 s in
    en_ambas P (id == 10) _ _ (igual _ refl refl refl refl refl refl) (
      en_ambas P (id == 20) _ _ (igual _ refl refl refl refl refl refl) (
        en_ambas P (id == 30) _ _ (igual _ refl refl refl refl refl refl) (
          en_ambas P (id == 31) _ _ (igual _ refl refl refl refl refl refl) (
            en_ambas P (id == 32) _ _ (igual _ refl refl refl refl refl refl) (
              en_ambas P (id == 34) _ _ (igual _ refl refl refl refl refl refl) (
                en_ambas P (id == 35) _ _ (igual _ refl refl refl refl refl refl)
                  (Conserva-refl s)))))))

pub update_instance-Conserva :
    (g : Algorithm) (p : ℕ) (h : Header) (s : Estado) → Conserva 0 s (update_instance g p h s)
unfolding update_instance
update_instance-Conserva el p h s = Conserva-refl s
update_instance-Conserva ke p h s = Conserva-refl s
update_instance-Conserva lsu p h s =
    let f = λ (q : Instance). record q { free_space = h.len } in
    Conserva-instances 0 s _ (length-update_at p f s.instances)
      (omega (arith, total_start-same_at f p s.instances (λ r. refl)))

-- The thread of the scheduler has answered: the state `t` after it, from `s`.
abbrev pub Respondida : Estado → Estado → Type 0
Respondida s t =
    (t.operation ≡ s.operation)
    × (t.esi_operation ≡ s.esi_operation)
    × (t.scheduler_response ≡ s.scheduler_response + 1)
    × (t.result_instance ≡ s.result_instance)
    × (total_start t.instances ≡ total_start s.instances)
    × (t.key ≡ s.key)

module _ (red : Red) (h : Header) (socket : ℕ) (rs : List Header)
    (no_compacta : (h.id == 11) ≡ false) where
  -- A header that does not ask for a compaction.
  pub process-Conserva :
      (n : ℕ) (s : Estado) → Ensures (Conserva 0 s) (process_message_header red n h socket rs s)
  unfolding process_message_header
  process-Conserva zero s = Ensures-spent
  process-Conserva (suc n) s =
      Ensures-elim (h.id == 11) _ _ (λ e. absurd (let k : true ≡ false = sym e ∙ no_compacta in cc))
        (λ e. Ensures-done _ (process_flag-Conserva h.id s))

module _ (red : Red) (fuel : ℕ) where
  preguntar-Respondida :
      (socket id : ℕ) (r : Header) (s : Estado)
      → (r.id == 11) ≡ false
      → Ensures (Respondida s) (preguntar red fuel socket id (some r) s)
  unfolding preguntar
  preguntar-Respondida socket id r s e =
      let s1 = mandar socket id (length s.key) 0 s.key s in
      let m = mandar-Conserva socket id (length s.key) 0 s.key s in
      Ensures->>= (process_message_header red fuel r socket [] s1) _
        (process-Conserva red r socket [] e fuel s1)
        (λ t c.
          let d = Conserva-trans 0 0 s s1 t m c in
          Ensures-done _ (
            d.operation,
            d.esi,
            omega (arith, d.response),
            d.result,
            omega (arith, d.starts),
            d.key,
          ))

  consulta-Respondida :
      (op : Operation) (socket : ℕ) (r : Header) (s : Estado)
      → es_pedido op ≡ true
      → (r.id == 11) ≡ false
      → Ensures (Respondida s) (consulta_de red fuel op socket (some r) s)
  unfolding consulta_de
  consulta-Respondida Operation.get socket r s h e = preguntar-Respondida socket 31 r s e
  consulta-Respondida Operation.set socket r s h e = preguntar-Respondida socket 33 r s e
  consulta-Respondida Operation.store socket r s h e = preguntar-Respondida socket 32 r s e
  consulta-Respondida Operation.status socket r s h e = cc
  consulta-Respondida Operation.abort socket r s h e = cc
  consulta-Respondida Operation.compact socket r s h e = cc

  -- The scheduler is asked for the operation of an ESI, once.
  pub turno_scheduler-Respondida :
      (socket : ℕ) (r : Header) (s : Estado)
      → es_pedido s.operation ≡ true
      → (r.id == 11) ≡ false
      → Ensures
          (λ t.
            (0 < s.esi_operation) × Respondida (record s { esi_operation = s.esi_operation - 1 }) t)
          (turno_scheduler red fuel socket (some r) s)
  unfolding turno_scheduler
  turno_scheduler-Respondida socket r s p e =
      Ensures-if (s.esi_operation == 0) waits _ (λ z. Ensures-waits)
        (λ z.
          Ensures-mono _ (λ t h. (ground (arith, z), h))
            (consulta-Respondida s.operation socket r
              (record s { esi_operation = s.esi_operation - 1 }) p e))

  consulta-abort :
      (op : Operation) (socket : ℕ) (r : Option Header) (s : Estado)
      → op ≡ Operation.abort
      → Ensures (Conserva 0 s) (consulta_de red fuel op socket r s)
  unfolding consulta_de send_header enviar
  consulta-abort Operation.get socket r s e = cc
  consulta-abort Operation.set socket r s e = cc
  consulta-abort Operation.store socket r s e = cc
  consulta-abort Operation.status socket r s e = cc
  consulta-abort Operation.abort socket r s e =
      Ensures-done _ (Conserva-otros 0 s s _ refl refl refl refl refl refl (Conserva-refl s))
  consulta-abort Operation.compact socket r s e = cc

  -- After an abort the scheduler is told, and does not answer.
  pub turno_scheduler-abort :
      (socket : ℕ) (r : Option Header) (s : Estado)
      → (0 < s.esi_operation → s.operation ≡ Operation.abort)
      → Ensures
          (λ t.
            (0 < s.esi_operation) × Conserva 0 (record s { esi_operation = s.esi_operation - 1 }) t)
          (turno_scheduler red fuel socket r s)
  unfolding turno_scheduler
  turno_scheduler-abort socket r s p =
      Ensures-if (s.esi_operation == 0) waits _ (λ z. Ensures-waits)
        (λ z.
          let hay : 0 < s.esi_operation = ground (arith, z) in
          Ensures-mono _ (λ t h. (hay, h))
            (consulta-abort s.operation socket r (record s { esi_operation = s.esi_operation - 1 })
              (p hay)))
