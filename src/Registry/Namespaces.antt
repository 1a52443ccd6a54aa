-- ===== src/Registry/Namespaces.antt =====
-- Namespaces are told apart by the part of a key before the slash: what isolates them, and what
-- does not.
use distributed_service_mesh.Registry.Listing.{fresh}
use distributed_service_mesh.Base.Sort.Filter.{only}
use distributed_service_mesh.Registry.Reads.{healthy_instances_unique, get_service_unique}
use distributed_service_mesh.Base.Outcome.{ok}
use distributed_service_mesh.Registry.View.{lookup-register, lookup}
use distributed_service_mesh.Registry.Services.{list_services_unique, SameService}
use distributed_service_mesh.Registry.Validity.{register-IsValid, IsValid}
use mathlib.Core.List.{append_assoc}
use distributed_service_mesh.Registry.Types.{Duration, InMemory, Time, Instance, key}
use distributed_service_mesh.Base.Text.{
  text_eq_refl, text_eq_iff, text_eq, append-cons_injective, codes, Free, Text,
}
use distributed_service_mesh.Registry.Ops.{
  stamped, healthy_instances, get_service, list_services, register,
}
use mathlib.Core.Path.{subst}
use distributed_service_mesh.Base.{
  arith, inr, ap, refl, false, inl, true, some, ◌||◌, Bool-cases, [], ◌∙◌, ◌≢◌, sym, ◌∷◌, ◌++◌, ℕ,
  ◌≡◌,
}

abbrev pub slash_byte : ℕ
slash_byte = b'/'

key-cons : (a x : Text) → key a x ≡ a ++ slash_byte ∷ x
unfolding key
key-cons a x = append_assoc a (codes "/") x

-- A namespace without a slash can be read off a key.
pub key-injective :
    (a b x y : Text) → Free slash_byte a → Free slash_byte b → key a x ≡ key b y → (a ≡ b) × (x ≡ y)
key-injective a b x y fa fb e =
    append-cons_injective slash_byte a b x y fa fb (sym (key-cons a x) ∙ (e ∙ key-cons b y))

pub register-ok :
    (inst : Instance) (now : Time) (r : InMemory)
    → (text_eq inst.service_name [] || text_eq inst.instance_id []) ≡ false
    → (register inst now r).0 ≡ ok tt
unfolding register
register-ok inst now r good = rw (good, register) refl

pub register-refused :
    (inst : Instance) (now : Time) (r : InMemory)
    → (text_eq inst.service_name [] || text_eq inst.instance_id []) ≡ true
    → (register inst now r).1 ≡ r
unfolding register
register-refused inst now r bad = rw (bad, register) refl

module _ (inst : Instance) (now : Time) (namespace : Text) (r : InMemory) (v : IsValid r)
    (free : Free slash_byte inst.namespace) (free' : Free slash_byte namespace)
    (other : inst.namespace ≢ namespace) where
  apart : (n : Text) → key inst.namespace inst.service_name ≢ key namespace n
  apart n e = other (key-injective inst.namespace namespace inst.service_name n free free' e).0

  register-SameService : (n : Text) → SameService (key namespace n) (register inst now r).1 r
  register-SameService n id =
      elim (Bool-cases (text_eq inst.service_name [] || text_eq inst.instance_id [])) [
        | inl bad ↦ ap (lookup (key namespace n) id) (register-refused inst now r bad)
        | inr good ↦
            lookup-register inst now r (key namespace n) id (register-ok inst now r good)
            ∙ ground (
              arith,
              text_eq_iff (key inst.namespace inst.service_name) (key namespace n),
              apart n,
            )
      ]

  -- In a valid registry, registering an instance changes no read of another namespace, if neither
  -- namespace has a slash in it: not the names that are listed, not the instances of a service and
  -- not the healthy ones.
  pub register-isolated :
      (list_services namespace (register inst now r).1 ≡ list_services namespace r)
      × ((n : Text) → get_service namespace n (register inst now r).1 ≡ get_service namespace n r)
      × ((n : Text) (stale_after : Duration) (later : Time)
          → healthy_instances namespace n stale_after later (register inst now r).1
            ≡ healthy_instances namespace n stale_after later r)
  register-isolated =
      let v' = register-IsValid inst now r v in
      (
        list_services_unique namespace (register inst now r).1 r v' v register-SameService,
        λ n. get_service_unique namespace n (register inst now r).1 r v' v (register-SameService n),
        λ n stale_after later.
            healthy_instances_unique namespace n stale_after later (register inst now r).1 r v' v
              (λ id. ap (only (fresh stale_after later)) (register-SameService n id)),
      )

-- The keys of two services in two namespaces are one key, if one namespace extends the other by a
-- slash and a text that the other's service name begins with.
pub key-collides : (a b c : Text) → key (a ++ codes "/" ++ b) c ≡ key a (b ++ codes "/" ++ c)
unfolding key
key-collides a b c = simp append_assoc

-- An instance with an ID and a service name `c`, registered in the namespace `a/b`, is stored for
-- the service `b/c` of the namespace `a` too.
pub register-leaks :
    (inst : Instance) (now : Time) (r : InMemory) (a b : Text)
    → inst.namespace ≡ a ++ codes "/" ++ b
    → inst.service_name ≢ []
    → inst.instance_id ≢ []
    → lookup (key a (b ++ codes "/" ++ inst.service_name)) inst.instance_id (register inst now r).1
      ≡ some (stamped inst now)
register-leaks inst now r a b e hs hi =
    let k = key inst.namespace inst.service_name in
    let same : k ≡ key a (b ++ codes "/" ++ inst.service_name) =
      ap (λ n. key n inst.service_name) e ∙ key-collides a b inst.service_name in
    subst (λ j. lookup j inst.instance_id (register inst now r).1 ≡ some (stamped inst now)) same
      (lookup-register inst now r k inst.instance_id (
          register-ok inst now r
            (ground (arith, text_eq_iff inst.service_name [], text_eq_iff inst.instance_id [])))
        ∙ ground (arith, text_eq_refl k, text_eq_refl inst.instance_id))
