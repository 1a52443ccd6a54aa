-- ===== src/Registry/Abstract.antt =====
-- internal/registry/registry.go up to the order of its maps: registries that store the same instances
-- are one.
use mathlib.Core.Path.{fun_ext}
use distributed_service_mesh.Registry.View.{at}
use distributed_service_mesh.Registry.Reads.{get_service_unique}
use distributed_service_mesh.Registry.Ops.{get_service}
use distributed_service_mesh.Registry.Validity.{IsValid}
use distributed_service_mesh.Base.Text.{text_eq_iff, Text}
use distributed_service_mesh.Registry.Refinement.{contents-call, promise, Contents, contents}
use distributed_service_mesh.Registry.Types.{Time, key, Instance, Error, InMemory}
use distributed_service_mesh.Registry.Calls.{registers, call-IsValid, call, Call}
use distributed_service_mesh.Base.Outcome.{Outcome}
use mathlib.Core.Quot
use mathlib.Core.Quot.{Quot, Quot-set}
use distributed_service_mesh.Base.{arith, false, sym, ◌∙◌, ap, List, ◌≡◌}

pub Reply-set : IsSet (Outcome Error (List Instance))
Reply-set = hlevel

pub Contents-set : IsSet Contents
Contents-set = hlevel

abbrev pub ValidRegistry : Type 0
ValidRegistry = (r : InMemory) × IsValid r

-- What a client can see, of every service.
abbrev pub SameContents : ValidRegistry → ValidRegistry → Type 0
SameContents (r, v) (s, w) = contents r ≡ contents s

abbrev pub Catalog : Type 0
Catalog = Quot SameContents

-- The methods on catalogs.
unfoldable pub change_catalog : Call → Catalog → Catalog
change_catalog c =
    Quot.lift Quot-set (λ (r, v). Quot.mk (call c r, call-IsValid c r v))
      (λ (r, v) (s, w) same.
        Quot.sound (contents-call c r ∙ (ap (promise c) same ∙ sym (contents-call c s))))

unfoldable pub catalog_contents : Catalog → Contents
catalog_contents = Quot.lift Contents-set (λ (r, v). contents r) (λ (r, v) (s, w) same. same)

unfoldable pub read_service : Text → Text → Catalog → Outcome Error (List Instance)
read_service namespace service =
    Quot.lift Reply-set (λ (r, v). get_service namespace service r)
      (λ (r, v) (s, w) same.
        get_service_unique namespace service r s v w
          (λ id. ap (λ f. f (key namespace service) id) same))

-- A catalog is what it stores.
pub catalog_ext : (a b : Catalog) → catalog_contents a ≡ catalog_contents b → a ≡ b
unfolding catalog_contents
catalog_ext =
    Quot.ind (λ _. hlevel Quot-set) λ (r, v). Quot.ind (λ _. hlevel Quot-set) λ (s, w). Quot.sound

pub contents-change_catalog :
    (c : Call) (a : Catalog)
    → catalog_contents (change_catalog c a) ≡ promise c (catalog_contents a)
unfolding catalog_contents change_catalog
contents-change_catalog c = Quot.ind (λ _. Contents-set _ _) (λ (r, v). contents-call c r)

promises_commute :
    (a b : Instance) (t u : Time) (f : Contents)
    → at
        (key a.namespace a.service_name)
        a.instance_id
        (key b.namespace b.service_name)
        b.instance_id
      ≡ false
    → promise (registers a t) (promise (registers b u) f)
      ≡ promise (registers b u) (promise (registers a t) f)
unfolding promise
promises_commute a b t u f apart = fun_ext λ k. fun_ext λ id.
    let ka = key a.namespace a.service_name in
    let kb = key b.namespace b.service_name in
    ground (
      arith,
      apart,
      text_eq_iff ka k,
      text_eq_iff kb k,
      text_eq_iff ka kb,
      text_eq_iff a.instance_id id,
      text_eq_iff b.instance_id id,
      text_eq_iff a.instance_id b.instance_id,
    )

-- In the quotient of the valid registries by what they store, two registrations for different keys
-- or IDs have the same result in either order.
pub registers_commute :
    (a b : Instance) (t u : Time) (c : Catalog)
    → at
        (key a.namespace a.service_name)
        a.instance_id
        (key b.namespace b.service_name)
        b.instance_id
      ≡ false
    → change_catalog (registers a t) (change_catalog (registers b u) c)
      ≡ change_catalog (registers b u) (change_catalog (registers a t) c)
registers_commute a b t u c apart = catalog_ext _ _ (
    contents-change_catalog (registers a t) (change_catalog (registers b u) c)
    ∙ (ap (promise (registers a t)) (contents-change_catalog (registers b u) c)
        ∙ (promises_commute a b t u (catalog_contents c) apart
            ∙ (ap (promise (registers b u)) (sym (contents-change_catalog (registers a t) c))
                ∙ sym
                    (contents-change_catalog (registers b u) (change_catalog (registers a t) c))))))
