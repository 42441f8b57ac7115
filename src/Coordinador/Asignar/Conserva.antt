-- ===== src/Coordinador/Asignar/Conserva.antt =====
-- What the choice of an instance leaves alone: the operation and the semaphores of the ESIs.
pub mod Asigna
use tp_re_distinto_so.Base.{
  ℕ, zero, suc, ◌+◌, ◌-◌, ◌≡◌, refl, ◌∙◌, ap, Bool, true, false, List, [], ◌∷◌, Option, some,
  Outcome, done, fault, waits, Ensures, Ensures-elim, Ensures-mono, Ensures-done, Ensures-fault,
  Ensures-waits, Ensures-spent, Ensures-if, Ensures-option, Ensures->>=, ◌==◌, get_elem?, update_at,
  update_first, length, ◌<◌, length-update_first, length-update_at, get_elem?-lt, arith, ◌⊎◌,
  Bool-cases, inl, inr, Sorting,
}
use tp_re_distinto_so.Coordinador.Estado.{
  Algorithm, el, lsu, ke, Instance, Estado, Red, instancia_de, post_start,
}
use tp_re_distinto_so.Coordinador.Letras.{cant_activas, con_letras, repartir, assign_letters}
use tp_re_distinto_so.Coordinador.Instancias.{
  asignar, tiene_socket, socket_is_equal, caida, disconnect_instance_in_list,
}
use tp_re_distinto_so.Coordinador.Turno.{choose_by_counter}
use tp_re_distinto_so.Coordinador.Espacio.{choose_by_space}
use tp_re_distinto_so.Coordinador.Claves.{
  Dictionary, Guardado, cerrar, disconnect_socket, esta_caido, test_connection, guardar_en,
  guardar_por, find_by_key, find_by_key_and_active, save_on_instance,
}
use tp_re_distinto_so.Coordinador.Asignar.{
  poner_clave, elegir_por, choose_instance, reintentar, asignar_nueva, asignar_vieja,
  assign_instance,
}

-- How many instances are told to work and have not begun.
unfoldable pub total_start : List Instance → ℕ
total_start [] = 0
total_start (p ∷ ps) = p.start + total_start ps

-- `t` has the operation, the key and the semaphores of `s`, but for `n` instances more that are told to work.
pub record Conserva (n : ℕ) (s t : Estado) : Type 0 where
  pub operation : t.operation ≡ s.operation
  pub esi : t.esi_operation ≡ s.esi_operation
  pub response : t.scheduler_response ≡ s.scheduler_response
  pub result : t.result_instance ≡ s.result_instance
  pub key : t.key ≡ s.key
  pub cuantas : length t.instances ≡ length s.instances
  pub starts : total_start t.instances ≡ total_start s.instances + n

pub Conserva-trans :
    (n m : ℕ) (s t u : Estado) → Conserva n s t → Conserva m t u → Conserva (n + m) s u
Conserva-trans n m s t u a b = record {
  operation = b.operation ∙ a.operation;
  esi = b.esi ∙ a.esi;
  response = b.response ∙ a.response;
  result = b.result ∙ a.result;
  key = b.key ∙ a.key;
  cuantas = b.cuantas ∙ a.cuantas;
  starts = omega (arith, b.starts, a.starts);
}

-- A change of the instances only, which keeps their sum, and of what Conserva does not speak of.
pub total_start-update_at :
    (f : Instance → Instance) (n p : ℕ) (xs : List Instance)
    → ((r : Instance) → (f r).start ≡ r.start + n)
    → p < length xs
    → total_start (update_at p f xs) ≡ total_start xs + n
unfolding total_start
total_start-update_at f n p [] h g = absurd (omega arith)
total_start-update_at f n zero (x ∷ xs) h g = omega (arith, h x)
total_start-update_at f n (suc p) (x ∷ xs) h g =
    omega (arith, total_start-update_at f n p xs h (omega arith))

-- sem_wait at one of the instances takes one.
pub total_start-tomar :
    (p : ℕ) (xs : List Instance) (q : Instance)
    → get_elem? xs p ≡ some q
    → 0 < q.start
    → total_start (update_at p (λ r. record r { start = r.start - 1 }) xs) + 1 ≡ total_start xs
unfolding total_start
total_start-tomar p [] q e h = cc
total_start-tomar zero (x ∷ xs) q e h =
    let x-q : x ≡ q = cc in let k : x.start ≡ q.start = ap (λ r. r.start) x-q in omega (arith, k, h)
total_start-tomar (suc p) (x ∷ xs) q e h = omega (arith, total_start-tomar p xs q e h)

-- An instance that is told to work.
pub con_start :
    (xs : List Instance)
    → 0 < total_start xs
    → (i : ℕ) × (q : Instance) × (get_elem? xs i ≡ some q) × (0 < q.start)
unfolding total_start
con_start [] h = absurd (omega (arith, h))
con_start (x ∷ xs) h = elim (Bool-cases (x.start == 0)) [
  | inl e ↦ let (i, q, g, w) = con_start xs (ground (arith, h, e)) in (suc i, q, g, w)
  | inr e ↦ (0, x, refl, ground (arith, e))
]

pub total_start-same_at :
    (f : Instance → Instance) (p : ℕ) (xs : List Instance)
    → ((r : Instance) → (f r).start ≡ r.start)
    → total_start (update_at p f xs) ≡ total_start xs
unfolding total_start
total_start-same_at f p [] h = refl
total_start-same_at f zero (x ∷ xs) h = omega (arith, h x)
total_start-same_at f (suc p) (x ∷ xs) h = omega (arith, total_start-same_at f p xs h)

total_start-update_first :
    (t : Instance → Bool) (f : Instance → Instance) (xs : List Instance)
    → ((r : Instance) → (f r).start ≡ r.start)
    → total_start (update_first t f xs) ≡ total_start xs
unfolding total_start
total_start-update_first t f [] h = refl
total_start-update_first t f (x ∷ xs) h = elim (Bool-cases (t x)) [
  | inl y ↦ rw y (omega (arith, h x))
  | inr n ↦ rw n (omega (arith, total_start-update_first t f xs h))
]

total_start-repartir :
    (n cant assigned : ℕ) (ps : List Instance)
    → total_start (repartir n cant assigned ps) ≡ total_start ps
unfolding total_start repartir con_letras
total_start-repartir n cant assigned [] = refl
total_start-repartir n cant assigned (p ∷ ps) = ground (
  arith,
  total_start-repartir n (cant - n) (assigned + n) ps,
  total_start-repartir n cant assigned ps,
)

pub Conserva-refl : (s : Estado) → Conserva 0 s s
Conserva-refl s = record {
  operation = refl;
  esi = refl;
  response = refl;
  result = refl;
  key = refl;
  cuantas = refl;
  starts = omega arith;
}

-- What holds of the parts of a sequence.
pub Ensures-mas :
    (n m : ℕ) (s t : Estado) (o : Outcome Estado)
    → Conserva n s t
    → Ensures (Conserva m t) o
    → Ensures (Conserva (n + m) s) o
Ensures-mas n m s t o c h = record { value = λ u e. Conserva-trans n m s t u c (h.value u e) }

-- The instances change, their sum does not, or by n.
pub Conserva-instances :
    (n : ℕ) (s : Estado) (xs : List Instance)
    → length xs ≡ length s.instances
    → total_start xs ≡ total_start s.instances + n
    → Conserva n s (record s { instances = xs })
Conserva-instances n s xs l h = record {
  operation = refl;
  esi = refl;
  response = refl;
  result = refl;
  key = refl;
  cuantas = l;
  starts = h;
}

length-repartir :
    (n cant assigned : ℕ) (ps : List Instance) → length (repartir n cant assigned ps) ≡ length ps
unfolding repartir
length-repartir n cant assigned [] = refl
length-repartir n cant assigned (p ∷ ps) =
    ground
      (arith, length-repartir n (cant - n) (assigned + n) ps, length-repartir n cant assigned ps)

asignar-Conserva : (g : Algorithm) (s : Estado) → Ensures (Conserva 0 s) (asignar g s)
unfolding asignar assign_letters
asignar-Conserva el s = Ensures-done s (Conserva-refl s)
asignar-Conserva lsu s = Ensures-done s (Conserva-refl s)
asignar-Conserva ke s =
    Ensures->>=
      {Q = λ xs. (length xs ≡ length s.instances) × (total_start xs ≡ total_start s.instances)}
      (assign_letters s.instances) _
      (Ensures-if (cant_activas s.instances == 0) fault _ (λ e. Ensures-fault)
        (λ e.
          Ensures-done _
            (length-repartir _ 26 0 s.instances, total_start-repartir _ 26 0 s.instances)))
      (λ xs h. Ensures-done _ (Conserva-instances 0 s xs h.0 (omega (arith, h.1))))

baja-Conserva :
    (socket : ℕ) (s : Estado)
    → Conserva 0 s (record s {
      instances = update_first (tiene_socket socket) caida s.instances;
      one_instance = s.one_instance - 1;
    })
unfolding caida
baja-Conserva socket s = record {
  operation = refl;
  esi = refl;
  response = refl;
  result = refl;
  key = refl;
  cuantas = length-update_first (tiene_socket socket) caida s.instances;
  starts =
      omega (arith, total_start-update_first (tiene_socket socket) caida s.instances (λ r. refl));
}

disconnect-Conserva :
    (socket : ℕ) (s : Estado) → Ensures (Conserva 0 s) (disconnect_instance_in_list socket s)
unfolding disconnect_instance_in_list caida
disconnect-Conserva socket s =
    Ensures-option (socket_is_equal s.instances socket) (done s) _
      (λ e. Ensures-done s (Conserva-refl s))
      (λ q e.
        Ensures-if (s.one_instance == 0) waits _ (λ y. Ensures-waits)
          (λ n. Ensures-mas 0 0 s _ _ (baja-Conserva socket s) (asignar-Conserva s.algorithm _)))

cerrar-Conserva : (socket : ℕ) (s : Estado) → Conserva 0 s (cerrar socket s)
unfolding cerrar
cerrar-Conserva socket s = record {
  operation = refl;
  esi = refl;
  response = refl;
  result = refl;
  key = refl;
  cuantas = refl;
  starts = omega arith;
}

pub disconnect_socket-Conserva :
    (socket : ℕ) (s : Estado) → Ensures (Conserva 0 s) (disconnect_socket socket true s)
unfolding disconnect_socket
disconnect_socket-Conserva socket s =
    Ensures-mas 0 0 s (cerrar socket s) _ (cerrar-Conserva socket s) (disconnect-Conserva socket _)

-- The fields that Conserva does not speak of.
pub Conserva-otros :
    (n : ℕ) (s t u : Estado)
    → u.instances ≡ t.instances
    → u.operation ≡ t.operation
    → u.esi_operation ≡ t.esi_operation
    → u.scheduler_response ≡ t.scheduler_response
    → u.result_instance ≡ t.result_instance
    → u.key ≡ t.key
    → Conserva n s t
    → Conserva n s u
Conserva-otros n s t u i o e r w k c = record {
  operation = o ∙ c.operation;
  esi = e ∙ c.esi;
  response = r ∙ c.response;
  result = w ∙ c.result;
  key = k ∙ c.key;
  cuantas = ap (λ xs. length xs) i ∙ c.cuantas;
  starts = ap total_start i ∙ c.starts;
}
