-- ===== src/Mydb/Protocol/Loads.antt =====
-- Loading ends, and keeps the number of the protocol, unless an array has elements of an unknown type.
use donkeyji.Prelude.{
  ℕ, ◌≡◌, refl, ◌⊎◌, sym, subst, ◌∙◌, inl, inr, Option, none, some, List, [], ◌∷◌, ◌++◌, arith, ltb,
  Bool-cases, Option-cases, same_text,
}
use donkeyji.Prelude.Int.{pos, negsuc}
use donkeyji.Prelude.Exec.{ok, Yields, yields, Yields-bind, Yields-map, Yields-if}
use donkeyji.Mydb.Protocol.{Arg, NetProtocol}
use donkeyji.Mydb.Protocol.Names.{process_type}
use donkeyji.Mydb.Protocol.Load.{
  Status, rawget, ArgDesc, not_table, arg_desc, File, unreadable, bad_chunk, no_env, failed_chunk,
  returned, World, proto_ok, proto_error, lua_error, Loading, func_proc, get_arg, new_array_arg,
  arg_proc, arglist_loop, arglist_proc, arglist_after, named, convert_protocol, load_file, load,
}

abbrev pub IsKnown : List ℕ → List Arg → Type 0
IsKnown name args = (a : Arg) × (get_arg name args ≡ some a)

-- the types of the elements of arrays are known
abbrev pub KnownArg : ArgDesc → List Arg → Type 0
KnownArg (arg_desc (some name) (some n)) args = IsKnown name args
KnownArg d args = Unit {0}

abbrev pub KnownArgs : List ArgDesc → List Arg → Type 0
KnownArgs [] args = Unit {0}
KnownArgs (d ∷ ds) args = KnownArg d args × KnownArgs ds args

abbrev pub KnownList : Option (List ArgDesc) → List Arg → Type 0
KnownList none args = Unit {0}
KnownList (some ds) args = KnownArgs ds args

abbrev pub KnownFile : File → List Arg → Type 0
KnownFile (returned (some d)) args = KnownList d.arg_list args
KnownFile file args = Unit {0}

IsKnown-append :
    (name : List ℕ) (args more : List Arg) → IsKnown name args → IsKnown name (args ++ more)
unfolding get_arg
IsKnown-append name [] more (a, h) = cc
IsKnown-append name (b ∷ args) more (a, h) = elim (Bool-cases (same_text b.get_type name)) [
  | inl e ↦ (b, rw e refl)
  | inr e ↦
      let rest : get_arg name args ≡ some a = ground (arith, h, e) in
      rw e (IsKnown-append name args more (a, rest))
]

KnownArgs-append :
    (ds : List ArgDesc) (args more : List Arg) → KnownArgs ds args → KnownArgs ds (args ++ more)
KnownArgs-append [] args more h = tt
KnownArgs-append (not_table ∷ ds) args more h = (tt, KnownArgs-append ds args more h.1)
KnownArgs-append (arg_desc none n ∷ ds) args more h = (tt, KnownArgs-append ds args more h.1)
KnownArgs-append (arg_desc (some name) none ∷ ds) args more h =
    (tt, KnownArgs-append ds args more h.1)
KnownArgs-append (arg_desc (some name) (some n) ∷ ds) args more h =
    (IsKnown-append name args more h.0, KnownArgs-append ds args more h.1)

-- what is known stays known
Grows : List ArgDesc → Option Arg × List Arg → Type 0
Grows ds out = KnownArgs ds out.1

arg_proc-Grows :
    (d : ArgDesc) (ds : List ArgDesc) (args : List Arg)
    → KnownArg d args
    → KnownArgs ds args
    → Yields (Grows ds) (arg_proc d args)
unfolding arg_proc new_array_arg Grows
arg_proc-Grows not_table ds args h hs = yields hs
arg_proc-Grows (arg_desc none n) ds args h hs = yields hs
arg_proc-Grows (arg_desc (some name) none) ds args h hs = yields hs
arg_proc-Grows (arg_desc (some name) (some (negsuc n))) ds args h hs = yields hs
arg_proc-Grows (arg_desc (some name) (some (pos n))) ds args (a, is) hs =
    Yields-if (ltb 255 n) (λ _. yields hs)
      (λ _. rw (new_array_arg, is) (yields (KnownArgs-append ds args _ hs)))

abbrev KeepsCallers : NetProtocol → World → Loading → Type 0
KeepsCallers p w l = (l.protocol.id ≡ p.id) × (l.world.for_caller ≡ w.for_caller)

-- the functions of `for_caller` are those of before, or point to `self`
abbrev pub Binds : (self : ℕ) → World → Loading → Type 0
Binds self w l =
    (name : List ℕ) (a : ℕ)
    → rawget name l.world.for_caller ≡ some a
    → (a ≡ self) ⊎ (rawget name w.for_caller ≡ some a)

-- the number is kept, and no more than a function for `self` is bound
pub record Keeps (self : ℕ) (p : NetProtocol) (w : World) (l : Loading) : Type 0 where
  pub id : l.protocol.id ≡ p.id
  pub binds : Binds self w l

arglist_loop-KeepsCallers :
    (ds : List ArgDesc) (p : NetProtocol) (w : World)
    → KnownArgs ds w.arg_types
    → Yields (KeepsCallers p w) (arglist_loop ds p w)
unfolding arglist_loop Grows
arglist_loop-KeepsCallers [] p w h = yields (refl, refl)
arglist_loop-KeepsCallers (d ∷ ds) p w h =
    Yields-bind (arg_proc-Grows d ds w.arg_types h.0 h.1)
      λ out known. next out known λ q v k. arglist_loop-KeepsCallers ds q v k
  where
    next :
        (out : Option Arg × List Arg)
        → Grows ds out
        → ((q : NetProtocol) (v : World)
            → KnownArgs ds v.arg_types
            → Yields (KeepsCallers q v) (arglist_loop ds q v))
        → Yields (KeepsCallers p w) (elim out.0 [
          | none ↦
              ok (record {
                status = lua_error;
                protocol = p;
                world = record w { arg_types = out.1 };
              })
          | some a ↦
              arglist_loop ds
                (record p { args = p.args ++ (a ∷ []) })
                (record w { arg_types = out.1 })
        ])
    next (none, args) known go = yields (refl, refl)
    next (some a, args) known go =
        go (record p { args = p.args ++ (a ∷ []) }) (record w { arg_types = args }) known

func_proc-Keeps :
    (self : ℕ) (p : NetProtocol) (w : World)
    → ((func_proc self p w).protocol.id ≡ p.id)
      × ((func_proc self p w).world.arg_types ≡ w.arg_types)
unfolding func_proc
func_proc-Keeps self p w = ground (arith, Bool-cases p.is_maker, Option-cases w.for_maker)

func_proc-Binds : (self : ℕ) (p : NetProtocol) (w : World) → Binds self w (func_proc self p w)
unfolding func_proc rawget
func_proc-Binds self p w name a h = ground (
  arith,
  h,
  Bool-cases p.is_maker,
  Option-cases w.for_maker,
  Bool-cases (same_text p.pack_func_name name),
)

process_type-Keeps :
    (cur_char path : List ℕ) (p q : NetProtocol)
    → process_type cur_char path p ≡ some q
    → q.id ≡ p.id
unfolding process_type
process_type-Keeps cur_char path p q h = ground arith

arglist_after-KeepsCallers :
    (ds : Option (List ArgDesc)) (l : Loading)
    → KnownList ds l.world.arg_types
    → Yields (KeepsCallers l.protocol l.world) (arglist_after ds l)
unfolding arglist_proc
arglist_after-KeepsCallers none l h =
    elim l.status
      as (λ s. Yields (KeepsCallers l.protocol l.world) (elim s [
        | proto_ok ↦ arglist_proc none l.protocol l.world
        | proto_error ↦ ok l
        | lua_error ↦ ok l
      ])) [
        | proto_ok ↦ yields (refl, refl)
        | proto_error ↦ yields (refl, refl)
        | lua_error ↦ yields (refl, refl)
      ]
arglist_after-KeepsCallers (some ds) l h =
    elim l.status
      as (λ s. Yields (KeepsCallers l.protocol l.world) (elim s [
        | proto_ok ↦ arglist_proc (some ds) l.protocol l.world
        | proto_error ↦ ok l
        | lua_error ↦ ok l
      ])) [
        | proto_ok ↦ arglist_loop-KeepsCallers ds l.protocol l.world h
        | proto_error ↦ yields (refl, refl)
        | lua_error ↦ yields (refl, refl)
      ]

named-id : (name : Option (List ℕ)) (p : NetProtocol) → (named name p).id ≡ p.id
named-id none p = refl
named-id (some name) p = refl

unchanged :
    {self : ℕ} {p : NetProtocol} {w : World} {s : Status}
    → Keeps self p w (record { status = s; protocol = p; world = w })
unchanged = record { id = refl; binds = λ name a h. inr h }

load_file-Keeps :
    (self : ℕ) (file : File) (p : NetProtocol) (w : World)
    → KnownFile file w.arg_types
    → Yields (Keeps self p w) (load_file self file p w)
unfolding convert_protocol
load_file-Keeps self unreadable p w h = yields unchanged
load_file-Keeps self bad_chunk p w h = yields unchanged
load_file-Keeps self no_env p w h = yields unchanged
load_file-Keeps self failed_chunk p w h = yields unchanged
load_file-Keeps self (returned none) p w h = yields unchanged
load_file-Keeps self (returned (some d)) p w h =
    let q : NetProtocol = named d.func_name p in
    let f = func_proc-Keeps self q w in
    Yields-map
      (arglist_after-KeepsCallers d.arg_list (func_proc self q w)
        (subst (KnownList d.arg_list) (sym f.1) h))
      λ l e. record {
        id = e.0 ∙ (f.0 ∙ named-id d.func_name p);
        binds =
            λ name a h. func_proc-Binds self q w name a (subst (λ t. rawget name t ≡ some a) e.1 h);
      }

pub load-Keeps :
    (cur_char path : List ℕ) (file : File) (self : ℕ) (p : NetProtocol) (w : World)
    → KnownFile file w.arg_types
    → Yields (Keeps self p w) (load cur_char path file self p w)
unfolding load
load-Keeps cur_char path file self p w h = elim (Option-cases (process_type cur_char path p)) [
  | inl e ↦ rw (load, e) (yields unchanged)
  | inr (q, e) ↦
      rw (load, e)
        (Yields-map (load_file-Keeps self file q w h)
          λ l k. record { id = k.id ∙ process_type-Keeps cur_char path p q e; binds = k.binds })
]
