-- ===== src/Components/Layout.antt =====
-- web/src/components/AppSidebar.tsx, TopBar.tsx, AppLayout.tsx and mode-toggle.tsx, and
-- web/src/pages/Unavailable.tsx: the frame around the pages. Constant class names are left out.
pub mod Laws
use bittuly.Prelude.{Bool, true, false, Option, none, some, List, [], ◌∷◌, String, str_eq}
use bittuly.Web.Effect.{Effect, navigate}
use bittuly.Web.Host.{Host}
use bittuly.Web.View.{prop, flag, on, View, nothing, text, el, seq, ◌▸◌, each, leaf}
use bittuly.Api.Auth.{User}
use bittuly.Components.Initials.{get_initials}
use bittuly.Components.Theme.{Theme, dark, light, system}

-- A click in the frame: a menu item that goes to a page, or the one that signs out.
pub data Event : Type 0 where
  go_to : String → Event
  ask_sign_out : Event

abbrev pub V : Type 0
V = View Event

pub record NavItem : Type 0 where
  pub label : String
  pub href : String
  pub icon : String

abbrev pub nav_items : List NavItem
nav_items =
    record { label = "My Links"; href = "/dashboard"; icon = "Link2" }
    ∷ record { label = "Insights"; href = "/insights"; icon = "PieChart" }
    ∷ record { label = "System Health"; href = "/health"; icon = "Activity" }
    ∷ []

-- One entry of the sidebar, for the path of the location.
nav_entry : String → NavItem → V
nav_entry pathname i = el "SidebarMenuItem" (prop "key" i.href ∷ []) (
    el "SidebarMenuButton"
      (flag "asChild" true ∷ flag "isActive" (str_eq pathname i.href) ∷ prop "tooltip" i.label ∷ [])
      (el "Link" (prop "to" i.href ∷ []) (leaf i.icon ▸ el "span" [] (text i.label))))

user_footer : Host → Option User → V
user_footer h none = nothing
user_footer h (some u) = el "SidebarFooter" [] (
    el "div" [] (
      el "div" [] (text (get_initials h u.username))
      ▸ el "div" [] (el "p" [] (text u.username) ▸ el "p" [] (text u.email))))

unfoldable pub app_sidebar : Host → String → Option User → V
unfolding nav_entry user_footer
app_sidebar h pathname user = el "Sidebar" (prop "collapsible" "offcanvas" ∷ []) (
    el "SidebarHeader" [] (el "span" [] (text "Bittuly"))
    ▸ el "SidebarContent" [] (
        el "SidebarGroup" []
          (el "SidebarGroupContent" [] (el "SidebarMenu" [] (each (nav_entry pathname) nav_items))))
    ▸ user_footer h user)

user_menu : Host → Option User → V
user_menu h none = nothing
user_menu h (some u) = el "div" [] (
    el "DropdownMenu" [] (
      el "DropdownMenuTrigger" (flag "asChild" true ∷ [])
        (el "button" (prop "aria-label" "User menu" ∷ []) (text (get_initials h u.username)))
      ▸ el "DropdownMenuContent" (prop "align" "end" ∷ []) (
          el "DropdownMenuItem" (on "onClick" (go_to "/profile") ∷ [])
            (leaf "User" ▸ text "View Profile")
          ▸ el "DropdownMenuItem" (on "onClick" (go_to "/settings") ∷ [])
              (leaf "Settings" ▸ text "Settings")
          ▸ leaf "DropdownMenuSeparator"
          ▸ el "DropdownMenuItem" (prop "variant" "destructive" ∷ on "onClick" ask_sign_out ∷ [])
              (leaf "LogOut" ▸ text "Sign out"))))

unfoldable pub top_bar : Host → String → Option User → V
unfolding user_menu
top_bar h title user = el "header" [] (
    el "div" [] (
      leaf "SidebarTrigger"
      ▸ el "Separator" (prop "orientation" "vertical" ∷ []) nothing
      ▸ el "h1" [] (text title))
    ▸ user_menu h user)

-- `AppLayout`, around what the page gives it.
unfoldable pub app_layout : Host → String → Option User → String → V → V
unfolding app_sidebar top_bar
app_layout h pathname user title children = el "SidebarProvider" [] (
    app_sidebar h pathname user
    ▸ el "SidebarInset" [] (top_bar h title user ▸ el "main" [] children))

unfoldable pub mode_toggle : View Theme
mode_toggle = el "DropdownMenu" [] (
    el "DropdownMenuTrigger" (flag "asChild" true ∷ []) (
      el "Button" (prop "variant" "outline" ∷ prop "size" "icon" ∷ [])
        (leaf "Sun" ▸ leaf "Moon" ▸ el "span" [] (text "Toggle theme")))
    ▸ el "DropdownMenuContent" (prop "align" "end" ∷ []) (
        el "DropdownMenuItem" (on "onClick" light ∷ []) (text "Light")
        ▸ el "DropdownMenuItem" (on "onClick" dark ∷ []) (text "Dark")
        ▸ el "DropdownMenuItem" (on "onClick" system ∷ []) (text "System")))

unfoldable pub unavailable : V
unavailable = el "div" [] (
    el "div" [] (
      el "div" [] (
        el "div" [] (leaf "AlertTriangle")
        ▸ el "h1" [] (text "Link Unavailable")
        ▸ el "p" [] (
            text
              "The short link you clicked does not exist, has expired, or has been deleted by its owner."))))
