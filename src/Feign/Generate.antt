-- ===== src/Feign/Generate.antt =====
-- The whole macro (`feign_client_impl` of conreg-feign-macro/src/feign_client.rs): the type that it makes of a trait.
-- syn has parsed the attribute's arguments and the trait. The type's functions `new`, `with_timeout` and `default`
-- make it around a balanced client.
use conreg.Prelude.{
  String, Bool, Option, List, [], ◌∷◌, Result, ok, err, concat, map, ◌≡◌, refl, arith, Option-cases,
  inl, inr, is_some, retain,
}
use conreg.Feign.Args.{Error, parse_feign_client_args}
use conreg.Feign.Method.{
  MethodImpl, generate_method_impls, generate_single_method_impl, extract_http_method_and_path,
}
use conreg.Feign.Syntax.{Meta, TraitItemFn}

-- A constant, a type or a macro of a trait is passed over.
pub data TraitItem : Type 0 where
  method : TraitItemFn → TraitItem
  other : TraitItem

pub record ItemTrait : Type 0 where
  pub name : String
  pub items : List TraitItem

pub record Generated : Type 0 where
  pub trait_def : ItemTrait
  pub struct_name : String
  pub methods : List MethodImpl

unfoldable pub methods_of : List TraitItem → List TraitItemFn
methods_of [] = []
methods_of (TraitItem.method m ∷ items) = m ∷ methods_of items
methods_of (TraitItem.other ∷ items) = methods_of items

module _ (parse_ident : String → Bool) where
  unfoldable pub feign_client_impl : List Meta → ItemTrait → Result Generated Error
  unfolding parse_feign_client_args methods_of generate_method_impls
  feign_client_impl args t = elim (parse_feign_client_args args) [
    | err e ↦ err e
    | ok (service_id, base_path, url) ↦ ok (record {
      trait_def = t;
      struct_name = concat t.name "Impl";
      methods = generate_method_impls parse_ident service_id base_path url (methods_of t.items);
    })
  ]

  abbrev pub is_route : TraitItemFn → Bool
  is_route m = is_some (extract_http_method_and_path m.attrs)

  name_of-single :
      (sid : String) (base url : Option String) (m : TraitItemFn) (h p : String)
      → (generate_single_method_impl parse_ident sid base url m h p).name ≡ m.name
  unfolding generate_single_method_impl
  name_of-single sid base url m h p = refl

  -- The methods that are implemented are those with an attribute of HTTP that can be read, in their order;
  -- a method without one has no implementation.
  pub generate_method_impls-names :
      (sid : String) (base url : Option String) (ms : List TraitItemFn)
      → map (λ (i : MethodImpl). i.name) (generate_method_impls parse_ident sid base url ms)
        ≡ map (λ (m : TraitItemFn). m.name) (retain is_route ms)
  unfolding generate_method_impls
  generate_method_impls-names sid base url [] = refl
  generate_method_impls-names sid base url (m ∷ ms) =
      elim (Option-cases (extract_http_method_and_path m.attrs)) [
        | inl e ↦ ground (arith, e, generate_method_impls-names sid base url ms)
        | inr ((h, p), e) ↦ ground (
          arith,
          e,
          generate_method_impls-names sid base url ms,
          name_of-single sid base url m h p,
        )
      ]
