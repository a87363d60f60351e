-- ===== src/Api/Auth.antt =====
-- web/src/api/auth.ts, with its calls as values like those of Api/Urls.
use bittuly.Prelude.{Option, none, some, List, [], ◌∷◌, ◌++◌, String, template}
use bittuly.Api.Client.{Env, Request, Options, api_request, auth_base_url}

pub record User : Type 0 where
  pub id : String
  pub username : String
  pub email : String
  pub created_at : String
  pub updated_at : String

pub record SignupResponse : Type 0 where
  pub pending_token : String

pub data AuthCall : Type 0 where
  signup : (username email password : String) → AuthCall
  verify_otp : (pending_token otp : String) → AuthCall
  login : (email password : String) → AuthCall
  logout : AuthCall
  get_user : String → AuthCall
  update_user : String → (username email password : Option String) → AuthCall
  delete_user : String → AuthCall

abbrev post : List (String × String) → Options
post fields = record { method = "POST"; body = some fields; headers = [] }

abbrev bare : String → Options
bare method = record { method = method; body = none; headers = [] }

abbrev field : String → Option String → List (String × String)
field key none = []
field key (some v) = (key, v) ∷ []

abbrev user_path : String → String
user_path id = template ("/api/auth/" ∷ id ∷ [])

unfoldable pub auth_request : Env → AuthCall → Request
unfolding api_request auth_base_url
auth_request env (signup username email password) =
    api_request (auth_base_url env) "/api/auth/signup" []
      (post (("username", username) ∷ ("email", email) ∷ ("password", password) ∷ []))
auth_request env (verify_otp pending_token otp) =
    api_request (auth_base_url env) "/api/auth/verify-otp" []
      (post (("pending_token", pending_token) ∷ ("otp", otp) ∷ []))
auth_request env (login email password) =
    api_request (auth_base_url env) "/api/auth/login" []
      (post (("email", email) ∷ ("password", password) ∷ []))
auth_request env logout = api_request (auth_base_url env) "/api/auth/logout" [] (bare "POST")
auth_request env (get_user id) = api_request (auth_base_url env) (user_path id) [] (bare "GET")
auth_request env (update_user id username email password) =
    api_request (auth_base_url env) (user_path id) [] (record {
      method = "PUT";
      body = some (field "username" username ++ (field "email" email ++ field "password" password));
      headers = [];
    })
auth_request env (delete_user id) =
    api_request (auth_base_url env) (user_path id) [] (bare "DELETE")
