-- ===== src/Entmoot/App.antt =====
-- entmoot/src/main.rs: the state of the application, its input fields and its menu, and the texts of
-- entmoot/src/constants.rs. The styles of a field are its colour and whether its cursor is hidden.
use fangorn_rs.Prelude.{
  ℕ, ◌+◌, ◌-◌, Bool, true, false, Option, none, some, List, [], ◌∷◌, map, length, leb, nat_eq,
  if◌then◌else◌,
}
use fangorn_rs.Rust.Text.{Text, codes}
use fangorn_rs.Entmoot.Env.{Env}

pub data CurrentScreen : Type 0 where
  main key_results encrypt_file_select_screen encryption_input_screen : CurrentScreen
  decrypt_screen intent_selection : CurrentScreen

pub data Colour : Type 0 where
  light_green dark_gray red : Colour

abbrev pub pwd_input_placeholder : Text
pwd_input_placeholder = codes "Please enter your password"

abbrev pub filename_input_placeholder : Text
filename_input_placeholder = codes "Please enter the file name"

abbrev pub psp22_input_placeholder : Text
psp22_input_placeholder = codes "Please enter the psp22 contract address"

abbrev pub psp22_token_count_placeholder : Text
psp22_token_count_placeholder = codes "Numbers only"

abbrev pub menu_names : List Text
menu_names = codes "Generate Keys" ∷ codes "Inspect Keys" ∷ codes "Encrypt" ∷ codes "Decrypt" ∷ []

-- The row below and the row above the selected one of `count` rows, round the ends.
unfoldable pub next_row : ℕ → Option ℕ → Option ℕ
next_row count none = some 0
next_row count (some i) = if leb (count - 1) i then some 0 else some (i + 1)

unfoldable pub previous_row : ℕ → Option ℕ → Option ℕ
previous_row count none = some 0
previous_row count (some i) = if nat_eq i 0 then some (count - 1) else some (i - 1)

-- `*item_selected = false`
abbrev pub deselect : Text × Bool → Text × Bool
deselect (name, chosen) = (name, false)

module _ (env : Env) where
  -- A `TextArea` with its block.
  pub record Input : Type 0 where
    pub area : env.Area
    pub colour : Colour
    pub hidden : Bool
    pub placeholder : Text
    pub masked : Bool

  abbrev pub initialize_input_field : Text → Bool → Input
  initialize_input_field placeholder masked = record {
    area = env.blank;
    colour = light_green;
    hidden = false;
    placeholder = placeholder;
    masked = masked;
  }

  abbrev pub inactivate : Input → Input
  inactivate i = record i { colour = dark_gray; hidden = true }

  abbrev pub activate : Input → Input
  activate i = record i { colour = light_green; hidden = false }

  abbrev pub indicate_error : Input → Input
  indicate_error i = record i { colour = red; placeholder = codes "Input cannot be empty" }

  pub record App : Type 0 where
    pub menu_state : Option ℕ
    pub menu_items : List Text
    pub menu_title : Text
    pub intent_list_state : Option ℕ
    pub intent_list_items : List (Text × Bool)
    pub current_screen : CurrentScreen
    pub generated_pubkey : Option Text
    pub file_explorer : env.Explorer
    pub file_path : Option Text
    pub filename_input : Input
    pub password_input : Input
    pub contract_address_input : Input
    pub token_count_input : Input
    pub decrypt_input_selection : ℕ  -- u8
    pub encrypt_input_selection : ℕ  -- u8
    pub display_password_input : Bool
    pub display_contract_address_input : Bool
    pub sr25519_intent : Bool
    pub is_encrypt_path : Bool
    pub substrate_backend : Option env.Backend
    pub ticket : Text
    -- what stands behind the field `node`
    pub world : env.World

  unfoldable pub new : env.World → env.Explorer → Text → App
  new world explorer ticket = record {
    menu_state = some 0;
    menu_items = menu_names;
    menu_title = codes " Main Menu ";
    intent_list_state = some 0;
    intent_list_items =
        (codes "Password", false) ∷ (codes "PSP22", false) ∷ (codes "SR25519", false) ∷ [];
    current_screen = main;
    generated_pubkey = none;
    file_explorer = explorer;
    file_path = none;
    filename_input = initialize_input_field filename_input_placeholder false;
    password_input = initialize_input_field pwd_input_placeholder true;
    contract_address_input = initialize_input_field psp22_input_placeholder false;
    token_count_input = initialize_input_field psp22_token_count_placeholder false;
    decrypt_input_selection = 0;
    encrypt_input_selection = 0;
    display_password_input = false;
    display_contract_address_input = false;
    sr25519_intent = false;
    is_encrypt_path = true;
    substrate_backend = none;
    ticket = ticket;
    world = world;
  }

  unfoldable pub next : App → App
  unfolding next_row
  next app = record app { menu_state = next_row (length app.menu_items) app.menu_state }

  unfoldable pub previous : App → App
  unfolding previous_row
  previous app = record app { menu_state = previous_row (length app.menu_items) app.menu_state }

  unfoldable pub reset_input_fields : App → App
  reset_input_fields app = record app {
    password_input = initialize_input_field pwd_input_placeholder true;
    filename_input = initialize_input_field filename_input_placeholder false;
    contract_address_input = initialize_input_field psp22_input_placeholder false;
    token_count_input = initialize_input_field psp22_token_count_placeholder false;
  }

  unfoldable pub reset_intent_list : App → App
  reset_intent_list app = record app {
    intent_list_state = some 0;
    intent_list_items = map deselect app.intent_list_items;
  }
