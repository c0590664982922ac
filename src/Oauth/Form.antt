-- ===== src/Oauth/Form.antt =====
-- renderPasswordForm of internal/oauth/authorize.go: the page that asks for the password and carries the
-- parameters of the request. html.EscapeString is a parameter.
use mcptunnels.Prelude.{
  Str, lit, Bool, true, false, not, [], ◌∷◌, ◌++◌, ◌≡◌, refl, sym, ap, ◌∙◌, arith, Lacks, nat_eq,
  if◌then◌else◌,
}
use mcptunnels.Oauth.Handlers.{AuthorizeRequest}

-- One hidden field with what follows it.
unfoldable pub hidden : (Str → Str) → Str → Str → Str → Str
hidden escape name value rest =
    lit "<input type=\"hidden\" name=\""
    ++ (name ++ (lit "\" value=\"" ++ (escape value ++ (lit "\">\n" ++ rest))))

abbrev wrong_password : Bool → Str
wrong_password false = []
wrong_password true = lit "<p style=\"color:red\">Wrong password.</p>"

abbrev page_head : Str
page_head =
    lit "<!DOCTYPE html>\n<html><head><title>Authorize "
    ++ (226
        ∷ 128
        ∷ 148
        ∷ lit
            " mcptunnels</title>\n<style>body{font-family:system-ui;max-width:400px;margin:80px auto;padding:0 16px}\ninput[type=password]{width:100%;padding:8px;margin:8px 0;font-size:16px}\nbutton{padding:8px 24px;font-size:16px}</style></head>\n<body><h2>Authorize access</h2>\n<p>Enter the password shown by <code>mcptunnel expose</code>.</p>\n")

abbrev page_foot : Str
page_foot =
    lit
      "<input type=\"password\" name=\"password\" placeholder=\"Password\" autofocus required>\n<br><button type=\"submit\">Authorize</button>\n</form></body></html>"

-- The hidden fields and the end of the page.
unfoldable pub fields : (Str → Str) → AuthorizeRequest → Str
unfolding hidden
fields escape req = hidden escape (lit "client_id") req.client_id (
    hidden escape (lit "redirect_uri") req.redirect_uri (
      hidden escape (lit "response_type") req.response_type (
        hidden escape (lit "code_challenge") req.code_challenge (
          hidden escape (lit "code_challenge_method") req.challenge_method
            (hidden escape (lit "state") req.req_state page_foot)))))

unfoldable pub password_page : (Str → Str) → Bool → AuthorizeRequest → Str
unfolding fields
password_page escape wrong req =
    page_head ++ (wrong_password wrong ++ (lit "\n<form method=\"post\">\n" ++ fields escape req))

-- The text outside double quotes, from a point inside or outside of them.
unfoldable pub outside : Bool → Str → Str
outside quoted [] = []
outside quoted (c ∷ s) =
    let closed = outside (not quoted) s in
    let open_text = outside quoted s in
    if nat_eq c 34 then closed else if quoted then open_text else c ∷ open_text

outside-quoted : (a rest : Str) → Lacks 34 a → outside true (a ++ (34 ∷ rest)) ≡ outside false rest
unfolding outside
outside-quoted [] rest h = refl
outside-quoted (c ∷ a) rest h = ground (arith, h.0, outside-quoted a rest h.1)

module _ (escape : Str → Str) (safe : (s : Str) → Lacks 34 (escape s)) where
  -- A field leaves the same text outside quotes, whatever its value is.
  outside-hidden :
      (name value rest : Str)
      → Lacks 34 name
      → outside false (hidden escape name value rest)
        ≡ lit "<input type= name=" ++ (lit " value=" ++ (lit ">\n" ++ outside false rest))
  unfolding outside hidden
  outside-hidden name value rest h =
      ap (λ t. lit "<input type= name=" ++ t)
        (outside-quoted name (lit " value=\"" ++ (escape value ++ (lit "\">\n" ++ rest))) h
          ∙ ap (λ t. lit " value=" ++ t)
              (outside-quoted (escape value) (lit ">\n" ++ rest) (safe value)))

  hidden-hidden :
      (name v w rest more : Str)
      → Lacks 34 name
      → outside false rest ≡ outside false more
      → outside false (hidden escape name v rest) ≡ outside false (hidden escape name w more)
  hidden-hidden name v w rest more h e =
      outside-hidden name v rest h
      ∙ ap (λ t. lit "<input type= name=" ++ (lit " value=" ++ (lit ">\n" ++ t))) e
      ∙ sym (outside-hidden name w more h)

  outside-fields :
      (req other : AuthorizeRequest)
      → outside false (fields escape req) ≡ outside false (fields escape other)
  unfolding fields
  outside-fields req other =
      hidden-hidden (lit "client_id") req.client_id other.client_id _ _ (ground arith) (
        hidden-hidden (lit "redirect_uri") req.redirect_uri other.redirect_uri _ _ (ground arith) (
          hidden-hidden (lit "response_type") req.response_type other.response_type _ _
            (ground arith)
            (hidden-hidden (lit "code_challenge") req.code_challenge other.code_challenge _ _
              (ground arith)
              (hidden-hidden (lit "code_challenge_method") req.challenge_method
                other.challenge_method _ _ (ground arith)
                (hidden-hidden (lit "state") req.req_state other.req_state page_foot page_foot
                  (ground arith) refl)))))

  -- Where html.EscapeString leaves no double quote in a value, the text of the page outside its quotes does
  -- not depend on the request: no parameter of the request leaves the quotes of its field.
  pub outside-password_page :
      (wrong : Bool) (req other : AuthorizeRequest)
      → outside false (password_page escape wrong req)
        ≡ outside false (password_page escape wrong other)
  unfolding password_page outside
  outside-password_page false req other =
      ap (λ t. outside false (page_head ++ lit "\n<form method=\"post\">\n") ++ t)
        (outside-fields req other)
  outside-password_page true req other =
      ap
        (λ t.
          outside false (page_head ++ (wrong_password true ++ lit "\n<form method=\"post\">\n"))
          ++ t)
        (outside-fields req other)
