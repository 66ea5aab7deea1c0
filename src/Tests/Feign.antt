-- ===== src/Tests/Feign.antt =====
-- Runs of the macro `feign_client` (conreg-feign-macro/src/feign_client.rs) and of the URLs of balanced requests
-- (conreg-client/src/lb/client.rs).
use conreg.Prelude.{
  false, String, true, Option, none, some, List, [], ◌∷◌, ok, ◌≡◌, refl, concat, string_eq, ◌==◌,
  if◌then◌else◌,
}
use conreg.Feign.Analysis.{analyze_parameters, read_attributes, no_templates}
use conreg.Feign.Classes.{
  last_from, any_from, is_body, is_json, is_part, used, is_path, is_query, is_form,
  analyze_parameters-used,
}
use conreg.Feign.Method.{generate_method_impls, MethodImpl}
use conreg.Feign.Names.{template_of, extract-template_of}
use conreg.Feign.Syntax.{Lit, Expr, Meta, Ty, Segments, Arguments, Generics, FnArg, TraitItemFn}
use conreg.Feign.Template.{extract_params_from_template}
use conreg.Feign.Url.{Values}
use conreg.Prelude.Text.{has_part}
use conreg.LoadBalance.Client.{LoadBalanceStrategy, LoadBalanceClient, get_instance}
use conreg.LoadBalance.Instance.{Instance}
use conreg.LoadBalance.Target.{parse_url-target}
use conreg.LoadBalance.Url.{Parsed, strategy_of, parse_url, origin, address}
use conreg.LoadBalance.Strategy.{Fastrand}

abbrev plain_type : String → Ty
plain_type name = Ty.path (Segments.segment name Arguments.no_arguments Segments.end)

abbrev text : String → Expr
text s = Expr.lit (Lit.str s)

-- `#[get(path = "/users/{id}", query = "page={page}&size={size}")]`
abbrev find_user : TraitItemFn
find_user = record {
  name = "find_user";
  attrs =
      (record {
        path = "get" ∷ [];
        metas = some (
            Meta.name_value ("path" ∷ []) (text "/users/{id}")
            ∷ Meta.name_value ("query" ∷ []) (text "page={page}&size={size}")
            ∷ []);
        literal = none;
        is_list = true;
      })
      ∷ [];
  inputs =
      FnArg.receiver
      ∷ FnArg.typed "id" (plain_type "i32")
      ∷ FnArg.typed "page" (plain_type "i32")
      ∷ FnArg.typed "size" (
          Ty.path (
            Segments.segment "Option"
              (Arguments.angle_bracketed
                (Generics.type_argument (plain_type "i32") Generics.no_generics))
              Segments.end))
      ∷ [];
  output = none;
}

abbrev values : Values
values = record { text = λ name. if name == "id" then "7" else "1"; held = λ name. none }

urls : List MethodImpl → List String
urls [] = []
urls (m ∷ ms) = m.url values ∷ urls ms

-- The path parameter is filled in, and the absent size is left out.
find_user_url :
    urls (generate_method_impls (λ s. true) "user" (some "/api") none (find_user ∷ []))
    ≡ "lb://user//api/users/7?page=1" ∷ []
unfolding urls generate_method_impls
find_user_url = refl

extract-template_of_example :
    extract_params_from_template (template_of ("page" ∷ "size" ∷ [])) ≡ "page" ∷ "size" ∷ []
extract-template_of_example =
    extract-template_of ("page" ∷ "size" ∷ []) ((refl, refl), ((refl, refl), tt))

analyze_parameters-used_example :
    let t = read_attributes find_user.attrs no_templates in
    ((analyze_parameters find_user "/users/{id}").path_params
      ≡ used "/users/{id}" t is_path find_user.inputs)
    × ((analyze_parameters find_user "/users/{id}").query_params
        ≡ used "/users/{id}" t is_query find_user.inputs)
    × ((analyze_parameters find_user "/users/{id}").form_params
        ≡ used "/users/{id}" t is_form find_user.inputs)
    × ((analyze_parameters find_user "/users/{id}").body_param
        ≡ last_from none (used "/users/{id}" t is_body find_user.inputs))
    × ((analyze_parameters find_user "/users/{id}").json_param
        ≡ last_from none (used "/users/{id}" t is_json find_user.inputs))
    × ((analyze_parameters find_user "/users/{id}").has_multipart_form
        ≡ any_from false (used "/users/{id}" t is_part find_user.inputs))
analyze_parameters-used_example = analyze_parameters-used find_user "/users/{id}"

-- A method with a parameter of the type `reqwest::multipart::Form`.
abbrev upload : TraitItemFn
upload = record {
  name = "upload";
  attrs = [];
  inputs =
      FnArg.typed "form" (
        Ty.path (
          Segments.segment "reqwest" Arguments.no_arguments (
            Segments.segment "multipart" Arguments.no_arguments
              (Segments.segment "Form" Arguments.no_arguments Segments.end))))
      ∷ [];
  output = none;
}

abbrev shop : Instance
shop = record { id = "i1"; service_id = "shop"; ip = "10.0.0.1"; port = 80; meta = [] }

abbrev first : Fastrand
first = record { below = λ n. 0; below-lt = λ n h. h }

abbrev parse : String → Option (String × Option String)
parse url = if url == "lb://shop/items" then some ("lb", some "shop") else none

abbrev balanced : LoadBalanceClient
balanced = record {
  strategies = ("shop", LoadBalanceStrategy.random) ∷ [];
  index = [];
  current_weight = [];
}

parse_url-target_example :
    parse_url first
      (λ service_id. ok (shop ∷ []))
      parse
      (concat (origin "lb" "shop") "/items")
      balanced
    ≡ (Parsed.url (concat (address shop) "/items"), balanced)
unfolding get_instance strategy_of has_part
parse_url-target_example =
    parse_url-target first (λ service_id. ok (shop ∷ [])) parse "lb" "shop" "/items" none shop
      balanced balanced refl refl refl refl
