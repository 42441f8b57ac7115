-- ===== src/Planificador/Claves/Validez.antt =====
-- The invariant of the scheduler's state.
use tp_re_distinto_so.Base.{
  ℕ, ◌≤◌, ◌<◌, ◌≡◌, sym, List, Option, none, some, Commons, done, fault, subst, length, All,
  get_elem?-in,
}
use tp_re_distinto_so.Planificador.Estado.{
  Esi, ClaveBloqueada, ClavePorEsi, Estado, load, load_un_esi,
}
use tp_re_distinto_so.Planificador.Claves.Listas.{Distintas, EsRegistrada}

-- Each key has one holder at most, and every key that is held is in lista_bloqueados.
pub record Llaves (commons : Commons) (lista : List ClaveBloqueada) (claves : List ClavePorEsi)
    : Type 0 where
  pub exclusivas : Distintas commons claves
  pub registradas : All (EsRegistrada commons lista) claves

-- A pointer to one of n ESIs.
abbrev pub EsPuntero : ℕ → ℕ → Type 0
EsPuntero n p = p < n

abbrev pub EsCola : ℕ → ClaveBloqueada → Type 0
EsCola n k = All (EsPuntero n) k.cola_esis_bloqueados

-- The running ESI is one, and the lists hold pointers to ESIs.
pub record Punteros (n : ℕ) (un_esi : Option ℕ) (ready : List ℕ) (lista : List ClaveBloqueada)
    : Type 0 where
  pub actual : ℕ
  pub es_actual : un_esi ≡ some actual
  pub actual_en : EsPuntero n actual
  pub ready_en : All (EsPuntero n) ready
  pub colas_en : All (EsCola n) lista

-- The semaphore of the ready ESIs counts no more than there are, and the semaphore that the command
-- `block` waits for is 0.
pub record IsValid {F : Type 0} (commons : Commons) (s : Estado F) : Type 0 where
  pub llaves : Llaves commons s.lista_bloqueados s.claves_bloqueadas_por_esis
  pub punteros : Punteros (length s.esis) s.un_esi s.lista_ready s.lista_bloqueados
  pub hay_le : s.hay_esis ≤ length s.lista_ready
  pub nadie : s.esi_executing ≡ 0

module _ {F : Type 0} (s : Estado F) where
  pub load-total : (p : ℕ) → p < length s.esis → (e : Esi F) × (load s p ≡ done e)
  unfolding load
  load-total p h = let (e, g) = get_elem?-in s.esis p h in (e, rw (g, load))

  pub load_un_esi-total :
      (p : ℕ)
      → s.un_esi ≡ some p
      → p < length s.esis
      → (e : Esi F) × (load s p ≡ done e) × (load_un_esi s ≡ done e)
  unfolding load_un_esi
  load_un_esi-total p e h =
      let (x, g) = load-total p h in
      (x, g, subst (λ o. elim o [ none ↦ fault | some q ↦ load s q ] ≡ done x) (sym e) g)
