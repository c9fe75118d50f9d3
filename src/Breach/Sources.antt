-- ===== src/Breach/Sources.antt =====
-- internal/breach/phone_static.go: the table of the sources.
use go_you.Common.{[], ◌∷◌, Text, codes}
use go_you.Common.Maps.{Dict}

abbrev pub source_mapping : Dict Text
source_mapping =
    (codes "amazon", codes "Amazon")
    ∷ (codes "Apollo", codes "Apollo")
    ∷ (codes "book_my_show", codes "BookMyShow")
    ∷ (codes "car_owners", codes "CarOwner")
    ∷ (codes "club_mahindra", codes "ClubMahindra")
    ∷ (codes "commodity_traders", codes "EquityTrader")
    ∷ (codes "cred", codes "Cred")
    ∷ (codes "demat_account_holders", codes "EquityTrader")
    ∷ (codes "demat_holders_chandigarh", codes "EquityTrader")
    ∷ (codes "demat_holders", codes "EquityTrader")
    ∷ (codes "demat_holders_mobile_and_city", codes "EquityTrader")
    ∷ (codes "demat_holders_mobile_numbers", codes "EquityTrader")
    ∷ (codes "dream11", codes "Dream11")
    ∷ (codes "dunzo", codes "Dunzo")
    ∷ (codes "facebook", codes "Facebook")
    ∷ (codes "flipkart", codes "Flipkart")
    ∷ (codes "frequent_flyers", codes "FrequentFlyers")
    ∷ (codes "fun88", codes "Fun88")
    ∷ (codes "gujarat_traders", codes "EquityTrader")
    ∷ (codes "hni_database", codes "HNI")
    ∷ (codes "icici_credit_card_holders", codes "CreditCardHolder")
    ∷ (codes "india_infoline_traders", codes "EquityTrader")
    ∷ (codes "india_mart_2", codes "IndiaMart")
    ∷ (codes "india_mart", codes "IndiaMart")
    ∷ (codes "instagram", codes "Instagram")
    ∷ (codes "linkedin_data", codes "Linkedin")
    ∷ (codes "livpure", codes "Livpure")
    ∷ (codes "money_control", codes "MoneyControl")
    ∷ (codes "mutual_funds_data", codes "EquityTrader")
    ∷ (codes "netflix", codes "Netflix")
    ∷ (codes "pan_card_holders", codes "PanCardHolders")
    ∷ (codes "paytm", codes "Paytm")
    ∷ (codes "people_data_labs", codes "PeopleDataLabs")
    ∷ (codes "phonepe", codes "Phonepe")
    ∷ (codes "prop_tiger", codes "PropTiger")
    ∷ (codes "rca_delhi", codes "RCA")
    ∷ (codes "sharekhan_demat", codes "ShareKhan")
    ∷ (codes "shein", codes "Shein")
    ∷ (codes "stock_traders", codes "EquityTrader")
    ∷ (codes "traders_database", codes "EquityTrader")
    ∷ (codes "truecaller_2_andhra_pradesh", codes "Truecaller")
    ∷ (codes "truecaller_2_assam", codes "Truecaller")
    ∷ (codes "truecaller_2_bihar_and_jharkhand", codes "Truecaller")
    ∷ (codes "truecaller_2_bihar", codes "Truecaller")
    ∷ (codes "truecaller_2_chennai", codes "Truecaller")
    ∷ (codes "truecaller_2_delhi", codes "Truecaller")
    ∷ (codes "truecaller_2_gujarat", codes "Truecaller")
    ∷ (codes "truecaller_2_haryana", codes "Truecaller")
    ∷ (codes "truecaller_2_himachal_pradesh", codes "Truecaller")
    ∷ (codes "truecaller_2_jammu_and_kashmir", codes "Truecaller")
    ∷ (codes "truecaller_2_karnataka", codes "Truecaller")
    ∷ (codes "truecaller_2_kerala", codes "Truecaller")
    ∷ (codes "truecaller_2_kolkata", codes "Truecaller")
    ∷ (codes "truecaller_2_madhya_pradesh_and_chhattisgarh", codes "Truecaller")
    ∷ (codes "truecaller_2_madhya_pradesh", codes "Truecaller")
    ∷ (codes "truecaller_2_maharashtra", codes "Truecaller")
    ∷ (codes "truecaller_2_north_east", codes "Truecaller")
    ∷ (codes "truecaller_2_orissa", codes "Truecaller")
    ∷ (codes "truecaller_2_punjab", codes "Truecaller")
    ∷ (codes "truecaller_2_rajasthan", codes "Truecaller")
    ∷ (codes "truecaller_2_tamilnadu", codes "Truecaller")
    ∷ (codes "truecaller_2_unknown", codes "Truecaller")
    ∷ (codes "truecaller_andhra_pradesh", codes "Truecaller")
    ∷ (codes "truecaller_assam", codes "Truecaller")
    ∷ (codes "truecaller_bihar", codes "Truecaller")
    ∷ (codes "truecaller_chennai", codes "Truecaller")
    ∷ (codes "truecaller_delhi", codes "Truecaller")
    ∷ (codes "truecaller_gujarat", codes "Truecaller")
    ∷ (codes "truecaller_haryana", codes "Truecaller")
    ∷ (codes "truecaller_himachal_pradesh", codes "Truecaller")
    ∷ (codes "truecaller_jammu_and_kashmir", codes "Truecaller")
    ∷ (codes "truecaller_karnataka", codes "Truecaller")
    ∷ (codes "truecaller_kerala", codes "Truecaller")
    ∷ (codes "truecaller_kolkata", codes "Truecaller")
    ∷ (codes "truecaller_kolkata_metro", codes "Truecaller")
    ∷ (codes "truecaller_madhya_pradesh", codes "Truecaller")
    ∷ (codes "truecaller_maharashtra", codes "Truecaller")
    ∷ (codes "truecaller_mumbai", codes "Truecaller")
    ∷ (codes "truecaller_mumbai_metro", codes "Truecaller")
    ∷ (codes "truecaller_north_east", codes "Truecaller")
    ∷ (codes "truecaller_orissa", codes "Truecaller")
    ∷ (codes "truecaller_punjab", codes "Truecaller")
    ∷ (codes "truecaller_rajasthan", codes "Truecaller")
    ∷ (codes "truecaller_tamilnadu", codes "Truecaller")
    ∷ (codes "truecaller_unknown", codes "Truecaller")
    ∷ (codes "youtube", codes "Youtube")
    ∷ (codes "zomato_2", codes "Zomato")
    ∷ (codes "zomato", codes "Zomato")
    ∷ (codes "zoomcar", codes "Zoomcar")
    ∷ (codes "linkedin", codes "Linkedin")
    ∷ (codes "ixigo", codes "Ixigo")
    ∷ []
