-- ===== src/Instancia/Compactar/Orden.antt =====
-- What compactar leaves of the table: the taken entries first, in their order, then the free ones.
use tp_re_distinto_so.Base.{
  ℕ, some, ◌*◌, ◌≡◌, refl, ap, sym, ◌∙◌, inl, inr, Bool, true, false, List, [], ◌∷◌, ◌++◌, Outcome,
  done, length, keep, All, arith, length-append, append-nil, keep-append,
}
use tp_re_distinto_so.Instancia.Estado.{Entrada, Estado}
use tp_re_distinto_so.Instancia.Claves.{send_header}
use tp_re_distinto_so.Instancia.Compactar.{
  Almacen, contar_ocupadas, compactar_desde, compactar, terminar,
}
use tp_re_distinto_so.Instancia.Compactar.Mover.{EsVacia, EsAtomica}
use tp_re_distinto_so.Instancia.Compactar.Partir.{
  es_ocupada, keep-vacias, keep-ocupadas, contar_ocupadas-append,
}
use tp_re_distinto_so.Instancia.Compactar.Rondas.{Compactado, rondas}

-- The table and the storage have the configured sizes, and every value takes one page at most.
pub record EsAlmacen (s : Estado) : Type 0 where
  pub largo : length s.tabla ≡ s.cant_entradas
  pub memoria : length s.mem ≡ s.cant_entradas * s.tamanio_entradas
  pub atomicas : All (EsAtomica s.tamanio_entradas) s.tabla

-- `m` ends in a state whose table has the taken entries of `s` in front, in their order and unchanged,
-- and free entries behind; both indices stand at the first free one.
pub record Compactada (s : Estado) (m : Outcome Estado) : Type 0 where
  pub estado : Estado
  pub libres : List Entrada
  pub resultado : m ≡ done estado
  pub tabla : estado.tabla ≡ keep es_ocupada s.tabla ++ libres
  pub vacias : All EsVacia libres
  pub largo : length estado.tabla ≡ length s.tabla
  pub memoria : length estado.mem ≡ length s.mem
  pub comienzo : estado.comienzo_de_entradas_libres ≡ length (keep es_ocupada s.tabla)
  pub indice : estado.index_circular ≡ length (keep es_ocupada s.tabla)
  pub claves : estado.lista_claves ≡ s.lista_claves

inicio :
    (leida : Bool) (s : Estado)
    → EsAlmacen s
    → Compactado leida s.cant_entradas s.tamanio_entradas s.tabla 0
        (record { tabla = s.tabla; mem = s.mem })
inicio leida s w = record {
  frente = [];
  resto = s.tabla;
  tabla = refl;
  ocupadas = tt;
  listo = inl refl;
  conserva = refl;
  atomicas = w.atomicas;
  largo = w.largo;
  memoria = w.memoria;
}

-- At the end of the rounds the rest is free.
final :
    (leida : Bool) (cant t : ℕ) (t0 : List Entrada) (b : Almacen)
    (c : Compactado leida cant t t0 cant b)
    → All EsVacia c.resto
final leida cant t t0 b c = elim c.listo [
  | inr (vs, _) ↦ vs
  | inl e ↦ nada c.resto (omega (arith, ap length c.tabla, length-append c.frente c.resto, c.largo))
]
  where
    nada : (es : List Entrada) → length es ≡ 0 → All EsVacia es
    nada [] h = tt
    nada (x ∷ es) h = absurd (omega arith)

frente_lem :
    (leida : Bool) (cant t : ℕ) (t0 : List Entrada) (b : Almacen)
    (c : Compactado leida cant t t0 cant b)
    → c.frente ≡ keep es_ocupada t0
frente_lem leida cant t t0 b c =
    let o = es_ocupada in
    sym (
      sym c.conserva
      ∙ ap (keep o) c.tabla
      ∙ keep-append o c.frente c.resto
      ∙ rw (keep-ocupadas c.frente c.ocupadas, keep-vacias c.resto (final leida cant t t0 b c))
          (append-nil c.frente))

terminar-fields :
    (s : Estado) (send : Bool) (a : Almacen)
    → ((terminar s send a).tabla ≡ a.tabla)
      × ((terminar s send a).mem ≡ a.mem)
      × ((terminar s send a).comienzo_de_entradas_libres ≡ contar_ocupadas a.tabla)
      × ((terminar s send a).index_circular ≡ contar_ocupadas a.tabla)
      × ((terminar s send a).lista_claves ≡ s.lista_claves)
unfolding terminar send_header
terminar-fields s true a = (refl, refl, refl, refl, refl)
terminar-fields s false a = (refl, refl, refl, refl, refl)

cierre :
    (s : Estado) (send leida : Bool) (b : Almacen)
    → s.tras_tabla ≡ some leida
    → EsAlmacen s
    → compactar_desde
        (some leida)
        s.cant_entradas
        s.tamanio_entradas
        s.cant_entradas
        0
        (record { tabla = s.tabla; mem = s.mem })
      ≡ done b
    → Compactado leida s.cant_entradas s.tamanio_entradas s.tabla s.cant_entradas b
    → Compactada s (compactar s send)
unfolding compactar
cierre s send leida b d w eq c =
    let libres = final leida s.cant_entradas s.tamanio_entradas s.tabla b c in
    let frente = frente_lem leida s.cant_entradas s.tamanio_entradas s.tabla b c in
    let campos = terminar-fields s send b in
    let tabla : b.tabla ≡ keep es_ocupada s.tabla ++ c.resto = rw (← frente) c.tabla in
    let e : contar_ocupadas b.tabla ≡ length (keep es_ocupada s.tabla) =
      rw (← frente)
        (ap contar_ocupadas c.tabla ∙ contar_ocupadas-append c.frente c.resto c.ocupadas libres) in
    record {
      estado = terminar s send b;
      libres = c.resto;
      resultado = rw (d, eq);
      tabla = campos.0 ∙ tabla;
      vacias = libres;
      largo = ap length campos.0 ∙ c.largo ∙ sym w.largo;
      memoria = ap length campos.1 ∙ c.memoria ∙ sym w.memoria;
      comienzo = campos.2 ∙ e;
      indice = campos.3 ∙ e;
      claves = campos.4;
    }

-- Where the table and the storage have the configured sizes, every value takes one page at most, and
-- the entry behind the table, which the loop looks at, can be read, compacting ends without a fault,
-- whatever is read there; the taken entries stand first,
-- unchanged and in their order, all others are free, the lengths and the maps stay, and both indices
-- stand at the number of taken entries. It does not speak of the bytes of the values.
pub compactar-Compactada :
    (s : Estado) (send_complete leida : Bool)
    → s.tras_tabla ≡ some leida
    → EsAlmacen s
    → Compactada s (compactar s send_complete)
compactar-Compactada s send leida d w =
    let (b, eq, c) =
      rondas leida s.cant_entradas s.tamanio_entradas s.tabla s.cant_entradas 0
        (record { tabla = s.tabla; mem = s.mem }) (omega arith) (inicio leida s w) in
    cierre s send leida b d w eq c
