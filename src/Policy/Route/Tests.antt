-- ===== src/Policy/Route/Tests.antt =====
-- Runs of `matchPolicy` and `isAllowedSender`.
use h3_protocol.Policy.Glob.{match_glob, compile, atom, matches, is_slash, is_line_end}
use h3_protocol.Policy.Route.{
  RoutePolicy, no_authentication, any, match_policy, allowed_by, is_allowed_sender,
}
use h3_protocol.Prelude.Texts.{codes, text_eq, includes}
use h3_protocol.Prelude.{◌≡◌, refl, false, none, some, List, [], ◌∷◌}

abbrev health : RoutePolicy
health = record {
  path = codes "/health";
  require = no_authentication;
  rate_limit = none;
  allowed_senders = none;
  sign_response = none;
  approval = none;
}

abbrev rest_of_api : RoutePolicy
rest_of_api = record health {
  path = codes "/**";
  require = any;
  allowed_senders = some (codes "a" ∷ []);
}

abbrev policies : List RoutePolicy
policies = health ∷ rest_of_api ∷ []

health_first : match_policy policies (codes "/health") ≡ some health
unfolding match_policy match_glob compile atom matches is_slash is_line_end
health_first = refl

others_next : match_policy policies (codes "/x/y") ≡ some rest_of_api
unfolding match_policy match_glob compile atom matches is_slash is_line_end
others_next = refl

b_refused : is_allowed_sender rest_of_api (codes "b") ≡ false
unfolding is_allowed_sender allowed_by includes text_eq
b_refused = refl
