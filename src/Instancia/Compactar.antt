-- ===== src/Instancia/Compactar.antt =====
-- compactar: the free entries of the table go to its end, and the storage with them.
pub mod Mover
pub mod Partir
pub mod Rondas
pub mod Orden
use tp_re_distinto_so.Base.{
  ℕ, zero, suc, ◌+◌, ◌*◌, Bool, true, false, List, [], ◌∷◌, Option, none, some, Outcome, done,
  fault, ◌>>=◌, str_eq, pos, if◌then◌else◌, ltb, drop, set,
}
use tp_re_distinto_so.Instancia.Estado.{Entrada, Estado, vacio}
use tp_re_distinto_so.Instancia.Memoria.{at, read_bytes, write_bytes}
use tp_re_distinto_so.Instancia.Claves.{send_header}

-- The table and the storage, which the loops change together.
pub record Almacen : Type 0 where
  pub tabla : List Entrada
  pub mem : List ℕ

unfoldable pub es_vacia : Entrada → Bool
es_vacia e = str_eq e.clave vacio

-- What a moved entry leaves behind.
abbrev pub libre : Entrada
libre = record { clave = vacio; tamanio = 0; age = pos 0 }

-- The run of free entries at the start of a list: the inner `while`. At the end of the table it
-- reads one entry more, `detras`, before it looks at the index, which then ends the loop whatever was
-- read.
unfoldable pub contar_vacias : Option Bool → List Entrada → Outcome ℕ
contar_vacias detras [] = elim detras [ none ↦ fault | some leida ↦ done 0 ]
contar_vacias detras (e ∷ es) =
    let rest = contar_vacias detras es in if es_vacia e then (do n ← rest; done (suc n)) else done 0

-- The run of taken entries at the start: the last `while`.
unfoldable pub contar_ocupadas : List Entrada → ℕ
contar_ocupadas [] = 0
contar_ocupadas (e ∷ es) = if es_vacia e then 0 else suc (contar_ocupadas es)

-- The body of the loop on x: entry x + vacias moves to x, if there is one. The copy may overlap.
unfoldable pub mover_entrada : ℕ → ℕ → ℕ → ℕ → Almacen → Outcome Almacen
mover_entrada cant tamanio_entradas vacias x a =
    if ltb (x + vacias) cant
    then (do
      e ← at a.tabla (x + vacias)
      bs ← read_bytes a.mem ((x + vacias) * tamanio_entradas) e.tamanio
      m ← write_bytes a.mem (x * tamanio_entradas) bs
      done (record { tabla = set (set a.tabla x e) (x + vacias) libre; mem = m }))
    else done a

-- for (x = i; x < k; x++), with the rounds that are left.
unfoldable pub mover : ℕ → ℕ → ℕ → ℕ → ℕ → Almacen → Outcome Almacen
mover cant tamanio_entradas vacias zero x a = done a
mover cant tamanio_entradas vacias (suc rounds) x a = do
  a' ← mover_entrada cant tamanio_entradas vacias x a
  mover cant tamanio_entradas vacias rounds (x + 1) a'

-- The body of the loop on i.
unfoldable pub compactar_en : Option Bool → ℕ → ℕ → ℕ → Almacen → Outcome Almacen
compactar_en detras cant tamanio_entradas i a = do
  e ← at a.tabla i
  if es_vacia e
      then (do
        vacias ← contar_vacias detras (drop i a.tabla)
        mover cant tamanio_entradas vacias vacias i a)
      else done a

-- for (i = 0; i < cantEntradas; i++), with the rounds that are left.
unfoldable pub compactar_desde : Option Bool → ℕ → ℕ → ℕ → ℕ → Almacen → Outcome Almacen
compactar_desde detras cant tamanio_entradas zero i a = done a
compactar_desde detras cant tamanio_entradas (suc rounds) i a = do
  a' ← compactar_en detras cant tamanio_entradas i a
  compactar_desde detras cant tamanio_entradas rounds (i + 1) a'

-- The indices after the loops, and the message to the coordinator.
unfoldable pub terminar : Estado → Bool → Almacen → Estado
unfolding send_header
terminar s send_complete a =
    let e = contar_ocupadas a.tabla in
    let s' : Estado = record s {
      tabla = a.tabla;
      mem = a.mem;
      comienzo_de_entradas_libres = e;
      index_circular = e;
    } in
    if send_complete then send_header s' 12 else s'

unfoldable pub compactar : Estado → Bool → Outcome Estado
compactar s send_complete = do
  a ←
      compactar_desde s.tras_tabla s.cant_entradas s.tamanio_entradas s.cant_entradas 0
        (record { tabla = s.tabla; mem = s.mem })
  done (terminar s send_complete a)
