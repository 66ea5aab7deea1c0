-- ===== src/LoadBalance/Target.antt =====
-- Where a balanced request goes (conreg-client/src/lb/client.rs, and the URLs of
-- conreg-feign-macro/src/feign_client.rs).
use Prim.Native.Char.{Char}
use text.Mathlib.TextLemmas.{nil-append, cons-append}
use conreg.Prelude.{
  suc, String, true, false, Option, some, List, ◌≡◌, refl, ap, ◌∙◌, sym, arith, concat, Result,
}
use conreg.Prelude.Text.{starts_with, has_part, size, replace, replace_from}
use conreg.LoadBalance.Client.{LoadBalanceStrategy, LoadBalanceClient, get_instance}
use conreg.LoadBalance.Instance.{Instance, Answer}
use conreg.LoadBalance.Strategy.{Fastrand}
use conreg.LoadBalance.Url.{Parsed, strategy_of, origin, address, resolve, parse_url}

starts_with-concat : (p s : String) → starts_with p (concat p s) ≡ true
unfolding starts_with
starts_with-concat String.[] s = refl
starts_with-concat (String.◌∷◌ c p) s =
    ap (starts_with (String.◌∷◌ c p)) (cons-append c p s) ∙ ground (arith, starts_with-concat p s)

-- A text without the part is left as it is.
replace_from-absent : (part to s : String) → has_part part s ≡ false → replace_from 0 part to s ≡ s
unfolding replace_from has_part
replace_from-absent part to String.[] h = refl
replace_from-absent part to (String.◌∷◌ c s) h = ground (arith, h, replace_from-absent part to s)

-- The characters of a match are passed over.
replace_from-skip :
    (part to s tail : String)
    → replace_from (size s) part to (concat s tail) ≡ replace_from 0 part to tail
unfolding replace_from
replace_from-skip part to String.[] tail = ap (replace_from 0 part to) (nil-append tail)
replace_from-skip part to (String.◌∷◌ c s) tail =
    ap (replace_from (suc (size s)) part to) (cons-append c s tail)
    ∙ replace_from-skip part to s tail

-- A text is replaced at the front, and nowhere else where it does not stand again.
replace-front :
    (c : Char) (p to tail : String)
    → has_part (String.◌∷◌ c p) tail ≡ false
    → replace (String.◌∷◌ c p) to (concat (String.◌∷◌ c p) tail) ≡ concat to tail
unfolding replace replace_from
replace-front c p to tail h =
    let part = String.◌∷◌ c p in
    ap (replace_from 0 part to) (cons-append c p tail)
    ∙ ground (
      arith,
      starts_with-concat part tail,
      cons-append c p tail,
      replace_from-skip part to p tail,
      replace_from-absent part to tail h,
    )

-- The same for a part that is a text behind a text that is not empty.
replace-origin :
    (scheme rest to tail : String) (strategy : Option LoadBalanceStrategy)
    → strategy_of scheme ≡ some strategy
    → has_part (concat scheme rest) tail ≡ false
    → replace (concat scheme rest) to (concat (concat scheme rest) tail) ≡ concat to tail
unfolding strategy_of
replace-origin String.[] rest to tail strategy known h = absurd (ground (arith, known))
replace-origin (String.◌∷◌ c p) rest to tail strategy known h =
    let e = cons-append c p rest in
    ap (λ part. replace part to (concat part tail)) e
    ∙ replace-front c (concat p rest) to tail (ap (λ part. has_part part tail) (sym e) ∙ h)

-- A URL of one of the client's schemes, whose service has an instance to give, is sent to that instance: what
-- stands behind the service's name is kept, where the scheme and the name do not stand in it again.
pub parse_url-target :
    (random : Fastrand) (found : String → Result (List Instance) String)
    (parse : String → Option (String × Option String)) (scheme service_id tail : String)
    (strategy : Option LoadBalanceStrategy) (i : Instance) (s s' : LoadBalanceClient)
    → strategy_of scheme ≡ some strategy
    → parse (concat (origin scheme service_id) tail) ≡ some (scheme, some service_id)
    → has_part (origin scheme service_id) tail ≡ false
    → get_instance random service_id (found service_id) strategy s ≡ (Answer.returned i, s')
    → parse_url random found parse (concat (origin scheme service_id) tail) s
      ≡ (Parsed.url (concat (address i) tail), s')
unfolding parse_url resolve
parse_url-target random found parse scheme service_id tail strategy i s s' known read absent given =
    ground (
      arith,
      known,
      read,
      given,
      replace-origin scheme (concat "://" service_id) (address i) tail strategy known absent,
    )
